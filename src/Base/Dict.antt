-- ===== src/Base/Dict.antt =====
-- Python's `dict` with `str` keys, as an association list: only the lookups and writes of the code
-- are observable, except that `length` bounds the number of its keys.
use Prim.Native.Nat.{◌≤◌, ◌<◌}
use Prim.Native.String.{String}
use mathlib.Core.Path.{◌≡◌, refl}
use mathlib.Core.Bool.{Bool, true, false}
use mathlib.Core.Option.{Option, none, some}
use mathlib.Core.List.{List, [], ◌∷◌}
use native.Mathlib.Omega.{arith}
use text.Mathlib.Text.{◌==◌}
use text.Mathlib.TextEquality.{eq_iff}
use versatile.Base.Tests.{if◌then◌else◌, length}

abbrev pub Dict {ℓ} : Type ℓ → Type ℓ
Dict V = List (String × V)

module _ {ℓ} {V : Type ℓ} where
  -- d.get(k)
  unfoldable pub lookup : String → Dict V → Option V
  lookup k [] = none
  lookup k ((j, v) ∷ d) = if j == k then some v else lookup k d

  -- d[k] = v keeps the place of a key that is there
  unfoldable pub insert : String → V → Dict V → Dict V
  insert k v [] = (k, v) ∷ []
  insert k v ((j, w) ∷ d) = if j == k then (k, v) ∷ d else (j, w) ∷ insert k v d

  -- del d[k], of a key that is there
  unfoldable pub erase : String → Dict V → Dict V
  erase k [] = []
  erase k ((j, w) ∷ d) = let rest = erase k d in if j == k then rest else (j, w) ∷ rest

  -- k in d
  unfoldable pub contains : String → Dict V → Bool
  unfolding lookup
  contains k d = elim (lookup k d) [ none ↦ false | some _ ↦ true ]

  pub lookup-insert :
      (k j : String) (v : V) (d : Dict V)
      → lookup j (insert k v d) ≡ (if k == j then some v else lookup j d)
  unfolding lookup insert
  lookup-insert k j v [] = refl
  lookup-insert k j v ((i, w) ∷ d) =
      ground (arith, eq_iff k j, eq_iff i k, eq_iff i j, lookup-insert k j v d)

  pub lookup-erase :
      (k j : String) (d : Dict V) → lookup j (erase k d) ≡ (if k == j then none else lookup j d)
  unfolding lookup erase
  lookup-erase k j [] = ground arith
  lookup-erase k j ((i, w) ∷ d) =
      ground (arith, eq_iff k j, eq_iff i k, eq_iff i j, lookup-erase k j d)

  pub contains-insert :
      (k j : String) (v : V) (d : Dict V)
      → contains j (insert k v d) ≡ (if k == j then true else contains j d)
  unfolding contains
  contains-insert k j v d = ground (arith, lookup-insert k j v d)

  pub contains-erase :
      (k j : String) (d : Dict V)
      → contains j (erase k d) ≡ (if k == j then false else contains j d)
  unfolding contains
  contains-erase k j d = ground (arith, lookup-erase k j d)

  length-erase-le : (k : String) (d : Dict V) → length (erase k d) ≤ length d
  unfolding erase
  length-erase-le k [] = omega arith
  length-erase-le k ((j, w) ∷ d) = ground (arith, length-erase-le k d)

  -- A key that is there is one of the entries, so without it there are fewer.
  pub length-erase-lt :
      (k : String) (d : Dict V) → contains k d ≡ true → length (erase k d) < length d
  unfolding contains lookup erase
  length-erase-lt k [] h = cc
  length-erase-lt k ((j, w) ∷ d) h = ground (arith, length-erase-lt k d, length-erase-le k d)

  pub insert_again : (k : String) (v w : V) (d : Dict V) → insert k v (insert k w d) ≡ insert k v d
  unfolding insert
  insert_again k v w [] = ground (arith, eq_iff k k)
  insert_again k v w ((j, u) ∷ d) = ground (arith, eq_iff j k, eq_iff k k, insert_again k v w d)

  erase_absent : (k : String) (d : Dict V) → contains k d ≡ false → erase k d ≡ d
  unfolding contains lookup erase
  erase_absent k [] h = refl
  erase_absent k ((j, u) ∷ d) h = ground (arith, erase_absent k d)

  erase-insert :
      (k : String) (v : V) (d : Dict V) → contains k d ≡ false → erase k (insert k v d) ≡ d
  unfolding contains lookup insert erase
  erase-insert k v [] h = ground (arith, eq_iff k k)
  erase-insert k v ((j, u) ∷ d) h = ground (arith, eq_iff j k, erase-insert k v d)

  -- An entry that is written twice and deleted leaves what was there before.
  pub erase-insert_twice :
      (k : String) (v w : V) (d : Dict V)
      → contains k d ≡ false
      → erase k (insert k v (insert k w d)) ≡ d
  erase-insert_twice k v w d h = rw (insert_again k v w d) (erase-insert k v d h)
