-- ===== src/Base/FirstFree.antt =====
-- The search for a name that is no key of a dictionary: number after number in steps of four.
use Prim.Native.Nat.{ℕ, zero, suc, ◌+◌, ◌*◌, ◌≤◌, ◌<◌}
use Prim.Native.String.{String}
use mathlib.Core.Path.{◌≡◌, refl, sym}
use mathlib.Core.Bool.{true, false}
use mathlib.Core.Logic.{◌≢◌, inl, inr}
use native.Mathlib.Omega.{arith}
use text.Mathlib.TextEquality.{eq_iff}
use versatile.Base.Tests.{length, if◌then◌else◌, Bool-cases}
use versatile.Base.Dict.{Dict, contains, erase, contains-erase, length-erase-lt}

unfoldable pub first_free {ℓ} : {V : Type ℓ} → (ℕ → String) → ℕ → Dict V → ℕ → ℕ
first_free name zero d n = n
first_free name (suc fuel) d n =
    let more = first_free name fuel d (n + 4) in if contains (name n) d then more else n

module _ {ℓ} {V : Type ℓ} (name : ℕ → String) (inj : (i j : ℕ) → name i ≡ name j → i ≡ j) where
  -- Without one key the search finds the same, if it does not try that key.
  first_free-erase :
      (fuel : ℕ) (d : Dict V) (n : ℕ) (key : String)
      → ((m : ℕ) → n ≤ m → name m ≢ key)
      → first_free name fuel (erase key d) n ≡ first_free name fuel d n
  unfolding first_free
  first_free-erase zero d n key h = refl
  first_free-erase (suc fuel) d n key h = ground (
    arith,
    contains-erase key (name n) d,
    eq_iff key (name n),
    (λ (e : key ≡ name n). h n (omega arith) (sym e)),
    first_free-erase fuel d (n + 4) key (λ m le. h m (omega arith)),
  )

  le-first_free : (fuel : ℕ) (d : Dict V) (n : ℕ) → n ≤ first_free name fuel d n
  unfolding first_free
  le-first_free zero d n = omega arith
  le-first_free (suc fuel) d n = ground (arith, le-first_free fuel d (n + 4))

  -- What is free without one key that the search has passed is free.
  free_past :
      (fuel : ℕ) (d : Dict V) (n : ℕ)
      → contains (name (first_free name fuel (erase (name n) d) (n + 4))) (erase (name n) d) ≡ false
      → contains (name (first_free name fuel d (n + 4))) d ≡ false
  free_past fuel d n free = ground (
    arith,
    (rw same at free),
    contains-erase (name n) (name next) d,
    eq_iff (name n) (name next),
    (λ (e : name n ≡ name next). moved next (le-first_free fuel d (n + 4)) (sym e)),
  )
    where
      next : ℕ
      next = first_free name fuel d (n + 4)

      moved : (m : ℕ) → n + 4 ≤ m → name m ≢ name n
      moved m le e = absurd (omega (arith, inj m n e))

      same : first_free name fuel (erase (name n) d) (n + 4) ≡ next
      same = first_free-erase fuel d (n + 4) (name n) moved

  -- More fuel than there are keys ends the search by its test.
  pub contains-first_free :
      (fuel : ℕ) (d : Dict V) (n : ℕ)
      → length d < fuel
      → contains (name (first_free name fuel d n)) d ≡ false
  unfolding first_free
  contains-first_free zero d n h = absurd (omega arith)
  contains-first_free (suc fuel) d n h = elim (Bool-cases (contains (name n) d)) [
    | inr free ↦ rw free free
    | inl used ↦ rw used (
        free_past fuel d n (
          contains-first_free fuel (erase (name n) d) (n + 4)
            (omega (arith, length-erase-lt (name n) d used))))
  ]

  -- The numbers behind `n + 4` are those behind `n` but the first.
  steps_suc :
      (d : Dict V) (n j : ℕ)
      → contains (name n) d ≡ true
      → ((i : ℕ) → i < j → contains (name (n + 4 + 4 * i)) d ≡ true)
      → (i : ℕ) → i < suc j
      → contains (name (n + 4 * i)) d ≡ true
  steps_suc d n j head tail zero h = let e : n + 4 * 0 ≡ n = omega arith in rw e head
  steps_suc d n j head tail (suc i) h =
      let e : n + 4 * suc i ≡ n + 4 + 4 * i = omega arith in rw e (tail i (omega arith))

  -- It passes keys only.
  pub first_free_steps :
      (fuel : ℕ) (d : Dict V) (n : ℕ)
      → (j : ℕ) × (first_free name fuel d n ≡ n + 4 * j)
        × ((i : ℕ) → i < j → contains (name (n + 4 * i)) d ≡ true)
  unfolding first_free
  first_free_steps zero d n = (0, omega arith, λ i h. absurd (omega arith))
  first_free_steps (suc fuel) d n =
      let (j, e, passed) = first_free_steps fuel d (n + 4) in
      elim (Bool-cases (contains (name n) d)) [
        | inr free ↦ (0, rw free (omega arith), λ i h. absurd (omega arith))
        | inl used ↦ (suc j, rw used (omega arith), steps_suc d n j used passed)
      ]
