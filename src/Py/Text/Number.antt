-- ===== src/Py/Text/Number.antt =====
-- `int(v)`, of a text too: white space around it, a sign, and ASCII digits. Digits of other
-- scripts, which Python takes as well, are not modelled: they are refused here.
pub mod Printed
use Prim.Native.String.{[], ◌∷◌}
use versatile.Base.{
  ℕ, zero, suc, ◌+◌, ◌-◌, ◌*◌, Char, code, String, Bool, true, false, ◌&&◌, ◌||◌, Option, none,
  some, leb, nat_eq, if◌then◌else◌,
}
use versatile.Base.Int.{ℤ, pos, negsuc}
use versatile.Base.Chars.{is_digit}
use versatile.Py.Text.Float.{negate, float_int}
use versatile.Py.Value.{type_error, value_error, Result, ok, err, Value, bool, int, float, str}

is_space : Char → Bool
is_space c = nat_eq (code c) 32 || leb 9 (code c) && leb (code c) 13

-- The rest behind the digits is white space.
all_space : String → Bool
unfolding is_space
all_space [] = true
all_space (c ∷ s) = is_space c && all_space s

-- At least one digit has been read.
more_digits : ℕ → String → Option ℕ
unfolding all_space
more_digits n [] = some n
more_digits n (c ∷ s) =
    let rest = more_digits (n * 10 + (code c - 48)) s in
    if is_digit c then rest else if all_space (c ∷ s) then some n else none

digits_of : String → Option ℕ
unfolding more_digits
digits_of [] = none
digits_of (c ∷ s) = if is_digit c then more_digits (code c - 48) s else none

abbrev as_positive : Option ℕ → Result ℤ
as_positive none = err value_error
as_positive (some n) = ok (pos n)

abbrev as_negative : Option ℕ → Result ℤ
as_negative none = err value_error
as_negative (some n) = ok (negate n)

parse_int : String → Result ℤ
unfolding digits_of is_space
parse_int [] = err value_error
parse_int (c ∷ s) =
    let skipped = parse_int s in
    if is_space c
    then skipped
    else if nat_eq (code c) b'-'
    then as_negative (digits_of s)
    else if nat_eq (code c) b'+'
    then as_positive (digits_of s)
    else as_positive (digits_of (c ∷ s))

-- int(v) of the values that the code converts
unfoldable pub to_int : Value → Result ℤ
unfolding parse_int float_int
to_int (int z) = ok z
to_int (bool true) = ok (pos 1)
to_int (bool false) = ok (pos 0)
to_int (str s) = parse_int s
to_int (float r) = float_int r
to_int _ = err type_error
