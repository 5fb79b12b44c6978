-- ===== src/Py/Value.antt =====
-- The values that the handlers pass around: what `json.loads` returns, and what the code builds
-- from it. `None` is `null`. A float stands by its `repr`, which is all that the code shows of it.
-- The operations are those of the source on a value of unknown type, with the exception that
-- Python raises where the type does not fit.
use Prim.Native.String.{[], ◌∷◌}
use versatile.Base.{
  ◌≡◌, refl, ap, ◌⊎◌, inl, inr, length, ℕ, zero, suc, Char, String, Bool, true, false, not, ◌||◌,
  List, ◌==◌, if◌then◌else◌, Option, none, some,
}
use versatile.Base.Int.{ℤ, pos, negsuc}

-- The exceptions that the code raises or meets; `failure` is one raised with a text.
pub data Error : Type 0 where
  attribute_error type_error key_error index_error value_error : Error
  recursion_error database_error name_error overflow_error : Error
  failure : String → Error

pub data Result (A : Type 0) : Type 0 where
  ok : A → Result A
  err : Error → Result A

pub Result-cases :
    {A : Type 0} (r : Result A) → ((e : Error) × (r ≡ err e)) ⊎ ((a : A) × (r ≡ ok a))
Result-cases (ok a) = inr (a, refl)
Result-cases (err e) = inl (e, refl)

mutual
  pub data Value : Type 0 where
    null : Value
    bool : Bool → Value
    int : ℤ → Value
    float : String → Value
    str : String → Value
    list : Items → Value
    dict : Fields → Value

  pub data Items : Type 0 where
    nil : Items
    cons : Value → Items → Items

  pub data Fields : Type 0 where
    end : Fields
    field : String → Value → Fields → Fields

abbrev pub to_list : Items → List Value
to_list nil = List.[]
to_list (cons v vs) = List.◌∷◌ v (to_list vs)

abbrev pub of_list : List Value → Items
of_list List.[] = nil
of_list (List.◌∷◌ v vs) = cons v (of_list vs)

pub to_list-of_list : (vs : List Value) → to_list (of_list vs) ≡ vs
to_list-of_list List.[] = refl
to_list-of_list (List.◌∷◌ v vs) = ap (List.◌∷◌ v) (to_list-of_list vs)

-- A list that the code has built by `append`.
abbrev pub list_of : List Value → Value
list_of vs = list (of_list vs)

abbrev pub number : ℕ → Value
number n = int (pos n)

-- `if v:`
unfoldable pub truthy : Value → Bool
truthy null = false
truthy (bool b) = b
truthy (int (pos zero)) = false
truthy (int (pos (suc n))) = true
truthy (int (negsuc n)) = true
truthy (float s) = not (s == "0.0" || s == "-0.0")
truthy (str s) = not (s == "")
truthy (list nil) = false
truthy (list (cons v vs)) = true
truthy (dict end) = false
truthy (dict (field k v fs)) = true

-- `v is None`
abbrev pub is_none : Value → Bool
is_none null = true
is_none _ = false

-- `v == "…"`
abbrev pub is_text : Value → String → Bool
is_text (str s) t = s == t
is_text _ t = false

-- `v is 0`: the one small integer object 0, and neither `False` nor `0.0`
abbrev pub is_zero : Value → Bool
is_zero (int (pos zero)) = true
is_zero _ = false

-- the value of a key of a dict
unfoldable pub find : String → Fields → Option Value
find k end = none
find k (field j v fs) = if j == k then some v else find k fs

-- d[k] = v keeps the place of a key that is there
unfoldable pub put : String → Value → Fields → Fields
put k v end = field k v end
put k v (field j w fs) = if j == k then field k v fs else field j w (put k v fs)

abbrev or_none : Option Value → Value
or_none none = null
or_none (some v) = v

abbrev or_key_error : Option Value → Result Value
or_key_error none = err key_error
or_key_error (some v) = ok v

-- `v.get("…")` of a dict
unfoldable pub field_of : String → Fields → Value
unfolding find
field_of k fs = or_none (find k fs)

-- `v.get("…")`
unfoldable pub get : Value → String → Result Value
unfolding field_of
get (dict fs) k = ok (field_of k fs)
get _ k = err attribute_error

-- `v["…"]`
unfoldable pub subscript : Value → String → Result Value
unfolding find
subscript (dict fs) k = or_key_error (find k fs)
subscript _ k = err type_error

-- `v[0]`
unfoldable pub first : Value → Result Value
first (list nil) = err index_error
first (list (cons v vs)) = ok v
first (str []) = err index_error
first (str (c ∷ s)) = ok (str (c ∷ []))
first (dict fs) = err key_error
first _ = err type_error

-- the last of `v` and the items behind it
unfoldable pub last_item : Value → Items → Value
last_item v nil = v
last_item v (cons w vs) = last_item w vs

last_char : Char → String → Value
last_char c [] = str (c ∷ [])
last_char c (d ∷ s) = last_char d s

-- `v[-1]`
unfoldable pub last : Value → Result Value
unfolding last_item last_char
last (list nil) = err index_error
last (list (cons v vs)) = ok (last_item v vs)
last (str []) = err index_error
last (str (c ∷ s)) = ok (last_char c s)
last (dict fs) = err key_error
last _ = err type_error

unfoldable pub chars : String → List Value
chars [] = List.[]
chars (c ∷ s) = List.◌∷◌ (str (c ∷ [])) (chars s)

unfoldable pub keys : Fields → List Value
keys end = List.[]
keys (field k v fs) = List.◌∷◌ (str k) (keys fs)

-- `for x in v:`
unfoldable pub iterate : Value → Result (List Value)
unfolding chars keys
iterate (list vs) = ok (to_list vs)
iterate (str s) = ok (chars s)
iterate (dict fs) = ok (keys fs)
iterate _ = err type_error

count_fields : Fields → ℕ
count_fields end = 0
count_fields (field k v fs) = suc (count_fields fs)

-- len(v)
unfoldable pub size_of : Value → Result ℕ
unfolding chars count_fields
size_of (list vs) = ok (length (to_list vs))
size_of (str s) = ok (length (chars s))
size_of (dict fs) = ok (count_fields fs)
size_of _ = err type_error

-- `for i in range(0, len(v)): v[i]`
unfoldable pub sequence : Value → Result (List Value)
unfolding chars
sequence (list vs) = ok (to_list vs)
sequence (str s) = ok (chars s)
sequence (dict end) = ok List.[]
sequence (dict (field k v fs)) = err key_error
sequence _ = err type_error

-- `v.items()`
unfoldable pub items : Value → Result Fields
items (dict fs) = ok fs
items _ = err attribute_error

-- the text `v` in `"…" + v` and `v + "…"`
unfoldable pub as_text : Value → Result String
as_text (str s) = ok s
as_text _ = err type_error
