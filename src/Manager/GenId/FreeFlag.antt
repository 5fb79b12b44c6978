-- ===== src/Manager/GenId/FreeFlag.antt =====
-- The `while` loop of `join_genID`: how far it goes, and how many rounds it needs.
use versatile.Base.{
  ap, ℕ, zero, suc, ◌+◌, ◌*◌, ◌<◌, String, ◌<>◌, ◌≡◌, ◌≢◌, refl, true, false, length, arith,
}
use versatile.Base.Decimal.{decimal, decimal_prefix_injective}
use versatile.Base.Dict.{Dict, contains}
use versatile.Base.FirstFree.{first_free, contains-first_free, first_free_steps}
use versatile.Py.Value.{Value}
use versatile.Manager.GenId.{free_flag}

module _ (device : String) where
  -- The `k`-th ID that is tried behind the flag.
  abbrev pub candidate : ℕ → ℕ → String
  candidate flag k = decimal (flag + 4 * k) <> device

  pub candidate_ne : (flag i j : ℕ) → i ≢ j → candidate flag i ≢ candidate flag j
  candidate_ne flag i j h e =
      h (omega (arith, decimal_prefix_injective (flag + 4 * i) (flag + 4 * j) device e))

  -- The tries behind the first one are those of the next flag.
  pub candidate-suc : (flag k : ℕ) → candidate (flag + 4) k ≡ candidate flag (suc k)
  candidate-suc flag k = ap (λ n. decimal n <> device) (omega arith)

  pub candidate-zero : (flag : ℕ) → candidate flag 0 ≡ decimal flag <> device
  candidate-zero flag = ap (λ n. decimal n <> device) (omega arith)

  abbrev name : ℕ → String
  name n = decimal n <> device

  name_injective : (i j : ℕ) → name i ≡ name j → i ≡ j
  name_injective i j = decimal_prefix_injective i j device

  -- It is the search for a free name, by flags in front of the device.
  free_flag-eq :
      (fuel : ℕ) (cache : Dict Value) (flag : ℕ)
      → free_flag fuel cache device flag ≡ first_free name fuel cache flag
  unfolding free_flag first_free
  free_flag-eq zero cache flag = refl
  free_flag-eq (suc fuel) cache flag = rw (free_flag-eq fuel cache (flag + 4)) refl

  -- More fuel than the cache has keys ends the loop by its test.
  pub contains-free_flag :
      (fuel : ℕ) (cache : Dict Value) (flag : ℕ)
      → length cache < fuel
      → contains (decimal (free_flag fuel cache device flag) <> device) cache ≡ false
  contains-free_flag fuel cache flag h =
      rw (free_flag-eq fuel cache flag) (contains-first_free name name_injective fuel cache flag h)

  -- It steps over cached IDs only.
  pub free_flag_steps :
      (fuel : ℕ) (cache : Dict Value) (flag : ℕ)
      → (j : ℕ) × (free_flag fuel cache device flag ≡ flag + 4 * j)
        × ((i : ℕ) → i < j → contains (candidate flag i) cache ≡ true)
  free_flag_steps fuel cache flag =
      rw (free_flag-eq fuel cache flag) (first_free_steps name name_injective fuel cache flag)
