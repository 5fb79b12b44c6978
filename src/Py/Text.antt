-- ===== src/Py/Text.antt =====
-- Python 3's texts: `str.split`, `str.replace`, `str.encode('unicode_escape')`, `str(v)` and
-- `repr(v)`. Which characters past ASCII `repr` shows as they are is the Unicode database's
-- business: the parameter `printable`.
pub mod Split
pub mod Float
pub mod Number
use Prim.Native.String.{[], ◌∷◌}
use mathlib.Core.List
use versatile.Base.{
  ℕ, zero, suc, ◌+◌, ◌/◌, ◌%◌, Char, code, String, ◌<>◌, Bool, true, false, not, ◌&&◌, ◌||◌, List,
  ltb, nat_eq, if◌then◌else◌,
}
use versatile.Base.Chars.{is_char, has_char}
use versatile.Base.Int.{ℤ, pos, negsuc}
use versatile.Base.Decimal.{digit, decimal}
use versatile.Py.Value.{
  Error, attribute_error, Result, ok, err, Value, null, bool, int, float, str, list, dict, Items,
  nil, cons, Fields, end, field,
}

abbrev add_char : Char → List String → List String
add_char c List.[] = List.◌∷◌ (c ∷ []) List.[]
add_char c (List.◌∷◌ part parts) = List.◌∷◌ (c ∷ part) parts

-- s.split('/')
unfoldable pub split : String → List String
split [] = List.◌∷◌ "" List.[]
split (c ∷ s) =
    let parts = split s in if is_char c b'/' then List.◌∷◌ "" parts else add_char c parts

-- s.replace("'", "\\'")
unfoldable pub replace_quote : String → String
replace_quote [] = []
replace_quote (c ∷ s) =
    let rest = replace_quote s in if is_char c b'\'' then "\\'" <> rest else c ∷ rest

hex_digit : ℕ → Char
unfolding digit
hex_digit n =
    if ltb n 10
    then digit n
    else if nat_eq n 10
    then "a"
    else if nat_eq n 11
    then "b"
    else if nat_eq n 12
    then "c"
    else if nat_eq n 13
    then "d"
    else if nat_eq n 14
    then "e"
    else "f"

-- the last `width` hexadecimal digits of `n`
hex : ℕ → ℕ → String → String
unfolding hex_digit
hex zero n out = out
hex (suc width) n out = hex width (n / 16) (hex_digit (n % 16) ∷ out)

-- One character as `repr` and `unicode_escape` write it, quotes apart.
escape_char : (ℕ → Bool) → Char → String
unfolding hex
escape_char printable c =
    let n = code c in
    if nat_eq n b'\\'
    then "\\\\"
    else if nat_eq n 9
    then "\\t"
    else if nat_eq n 10
    then "\\n"
    else if nat_eq n 13
    then "\\r"
    else if ltb n 32 || nat_eq n 127
    then "\\x" <> hex 2 n ""
    else if ltb n 127 || printable n
    then c ∷ []
    else if ltb n 256
    then "\\x" <> hex 2 n ""
    else if ltb n 65536
    then "\\u" <> hex 4 n ""
    else "\\U" <> hex 8 n ""

-- s.encode('unicode_escape'): its bytes, which are ASCII
unfoldable pub unicode_escape : String → String
unfolding escape_char
unicode_escape [] = []
unicode_escape (c ∷ s) = escape_char (λ n. false) c <> unicode_escape s

quoted : ℕ → (ℕ → Bool) → String → String
unfolding escape_char
quoted q printable [] = []
quoted q printable (c ∷ s) =
    (if is_char c q then "\\" <> c ∷ [] else escape_char printable c) <> quoted q printable s

-- The text in single quotes, or in double quotes if it has single ones and no double ones.
in_quotes : (ℕ → Bool) → String → String
unfolding quoted has_char
in_quotes printable s =
    if has_char b'\'' s && not (has_char b'"' s)
    then "\"" <> quoted b'"' printable s <> "\""
    else "'" <> quoted b'\'' printable s <> "'"

unfoldable pub repr_int : ℤ → String
unfolding decimal
repr_int (pos n) = decimal n
repr_int (negsuc n) = "-" <> decimal (n + 1)

module _ (printable : ℕ → Bool) where
  unfoldable mutual
    unfolding in_quotes repr_int

    pub repr : Value → String
    repr null = "None"
    repr (bool true) = "True"
    repr (bool false) = "False"
    repr (int z) = repr_int z
    repr (float s) = s
    repr (str s) = in_quotes printable s
    repr (list nil) = "[]"
    repr (list (cons v vs)) = "[" <> repr v <> repr_items vs
    repr (dict end) = "{}"
    repr (dict (field k v fs)) = "{" <> in_quotes printable k <> ": " <> repr v <> repr_fields fs

    repr_items : Items → String
    repr_items nil = "]"
    repr_items (cons v vs) = ", " <> repr v <> repr_items vs

    repr_fields : Fields → String
    repr_fields end = "}"
    repr_fields (field k v fs) = ", " <> in_quotes printable k <> ": " <> repr v <> repr_fields fs

  -- str(v), which is also what `"{0}".format(v)` puts in
  unfoldable pub to_str : Value → String
  unfolding repr
  to_str (str s) = s
  to_str v = repr v

-- [v.encode('unicode_escape') for v in value]
unfoldable pub encode_all : Items → Result (List String)
unfolding unicode_escape
encode_all nil = ok List.[]
encode_all (cons (str s) vs) = elim (encode_all vs) [
  | ok rest ↦ ok (List.◌∷◌ (unicode_escape s) rest)
  | err e ↦ err e
]
encode_all (cons v vs) = err attribute_error

bytes_rest : List String → String
unfolding in_quotes
bytes_rest List.[] = "]"
bytes_rest (List.◌∷◌ b bs) = ", b" <> in_quotes (λ n. false) b <> bytes_rest bs

-- str of a list of `bytes`
unfoldable pub str_bytes : List String → String
unfolding bytes_rest
str_bytes List.[] = "[]"
str_bytes (List.◌∷◌ b bs) = "[b" <> in_quotes (λ n. false) b <> bytes_rest bs
