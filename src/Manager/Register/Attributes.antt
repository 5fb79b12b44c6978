-- ===== src/Manager/Register/Attributes.antt =====
-- The columns 'attr1', 'attr2', … of a registered item.
use text.Mathlib.TextLemmas.{append_cancel_left}
use versatile.Base.{
  ℕ, zero, suc, ◌+◌, ◌<◌, String, ◌<>◌, ◌≡◌, refl, ap, ◌∙◌, Option, none, some, List, [], ◌∷◌,
  arith, ◌==◌, eq_refl, eq_iff, if◌then◌else◌,
}
use versatile.Base.Decimal.{decimal, decimal_injective}
use versatile.Py.Value.{Value, Fields, end, field, find, put}
use versatile.Manager.Register.{put_attributes}

abbrev pub column : ℕ → String
column i = "attr" <> decimal (i + 1)

column_injective : (i j : ℕ) → column i ≡ column j → i ≡ j
column_injective i j h = omega (
  arith,
  decimal_injective (i + 1) (j + 1)
      (append_cancel_left "attr" (decimal (i + 1)) (decimal (j + 1)) h),
)

find-put :
    (k j : String) (v : Value) (fs : Fields)
    → find j (put k v fs) ≡ (if k == j then some v else find j fs)
unfolding find put
find-put k j v end = refl
find-put k j v (field i w fs) =
    ground (arith, eq_iff k j, eq_iff i k, eq_iff i j, find-put k j v fs)

-- The attributes from the `i`-th on leave the columns before it.
column_before :
    (i j : ℕ) (attributes : List Value) (columns : Fields)
    → j < i
    → find (column j) (put_attributes i attributes columns) ≡ find (column j) columns
unfolding put_attributes
column_before i j [] columns h = refl
column_before i j (a ∷ attributes) columns h =
    column_before (suc i) j attributes (put (column i) a columns) (omega arith)
    ∙ ground (
      arith,
      find-put (column i) (column j) a columns,
      eq_iff (column i) (column j),
      column_injective i j,
    )

abbrev pub nth : ℕ → List Value → Option Value
nth i [] = none
nth zero (v ∷ vs) = some v
nth (suc i) (v ∷ vs) = nth i vs

put_here :
    (i : ℕ) (v : Value) (columns : Fields) → find (column i) (put (column i) v columns) ≡ some v
put_here i v columns = rw (find-put (column i) (column i) v columns, eq_refl (column i)) refl

column_at :
    (i d k : ℕ) (a : Value) (attributes : List Value) (columns : Fields)
    → k ≡ i + d
    → nth d attributes ≡ some a
    → find (column k) (put_attributes i attributes columns) ≡ some a
unfolding put_attributes
column_at i d k a [] columns e h = cc
column_at i zero k a (b ∷ attributes) columns e h =
    column_before (suc i) k attributes (put (column i) b columns) (omega arith)
    ∙ ap (λ j. find (column j) (put (column i) b columns)) (omega arith)
    ∙ put_here i b columns
    ∙ h
column_at i (suc d) k a (b ∷ attributes) columns e h =
    column_at (suc i) d k a attributes (put (column i) b columns) (omega arith) h

-- The row that `register` stores has the attributes in their order: the one at place `i` of the list
-- stands in the column named 'attr' and the number `i + 1`, whatever the list and the other columns
-- are.
pub put_attributes_at :
    (attributes : List Value) (columns : Fields) (i : ℕ) (a : Value)
    → nth i attributes ≡ some a
    → find (column i) (put_attributes 0 attributes columns) ≡ some a
put_attributes_at attributes columns i a h = column_at 0 i i a attributes columns (omega arith) h
