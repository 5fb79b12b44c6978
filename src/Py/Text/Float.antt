-- ===== src/Py/Text/Float.antt =====
-- `int(v)` of a float, which stands by its `repr`. Below 1e16 the `repr` has no exponent, and its part
-- before the point is what `int` gives. From there on it is an integer in the notation of exponents,
-- and the float is the nearest number of 53 bits, which is an integer too.
use Prim.Native.Nat.{◌^◌}
use Prim.Native.String.{[], ◌∷◌}
use versatile.Base.{
  ℕ, zero, suc, ◌+◌, ◌-◌, ◌*◌, ◌/◌, ◌%◌, code, String, ◌≡◌, refl, ◌==◌, ◌&&◌, ◌||◌, ltb, nat_eq,
  if◌then◌else◌,
}
use versatile.Base.Chars.{is_char, is_digit}
use versatile.Base.Int.{ℤ, pos, negsuc}
use versatile.Py.Value.{value_error, overflow_error, Result, ok, err}

-- What has been read of digits, how many they were, and what stands behind them.
record Digits : Type 0 where
  number : ℕ
  size : ℕ
  rest : String

read_digits : ℕ → ℕ → String → Digits
read_digits n k [] = record { number = n; size = k; rest = [] }
read_digits n k (c ∷ s) =
    let more = read_digits (n * 10 + (code c - 48)) (k + 1) s in
    if is_digit c then more else record { number = n; size = k; rest = c ∷ s }

-- How many bits `n` has past the 53 of a float; `fuel` is at least that number.
extra_bits : ℕ → ℕ → ℕ
extra_bits zero n = 0
extra_bits (suc fuel) n =
    let more = extra_bits fuel (n / 2) in if ltb n (2 ^ 53) then 0 else more + 1

-- `n` without its last `e` bits, rounded to the nearest, and to the even one in the middle.
round_bits : ℕ → ℕ → ℕ
round_bits zero n = n
round_bits (suc e) n =
    let high = n / 2 ^ suc e in
    let low = n % 2 ^ suc e in
    let up = ltb (2 ^ e) low || nat_eq low (2 ^ e) && nat_eq (high % 2) 1 in
    (high + (if up then 1 else 0)) * 2 ^ suc e

-- The largest float has 1024 bits.
nearest : ℕ → ℕ
unfolding extra_bits round_bits
nearest n = round_bits (extra_bits 1024 n) n

-- The digits `n`, of which the last `k` stand behind the point, in front of an exponent, if there is
-- one. A negative one stands for a number below one only.
scaled : ℕ → ℕ → String → ℕ
unfolding read_digits nearest
scaled n k [] = n / 10 ^ k
scaled n k (e ∷ []) = n / 10 ^ k
scaled n k (e ∷ sign ∷ s) =
    let exponent = (read_digits 0 0 s).number in
    if is_char sign b'-' then 0 else nearest (n * 10 ^ exponent / 10 ^ k)

behind_whole : ℕ → String → ℕ
unfolding scaled read_digits
behind_whole n [] = n
behind_whole n (c ∷ s) =
    let digits = read_digits n 0 s in
    if is_char c b'.' then scaled digits.number digits.size digits.rest else scaled n 0 (c ∷ s)

whole_part : String → ℕ
unfolding behind_whole read_digits
whole_part s = let digits = read_digits 0 0 s in behind_whole digits.number digits.rest

abbrev pub negate : ℕ → ℤ
negate zero = pos zero
negate (suc n) = negsuc n

signed : String → ℤ
unfolding whole_part
signed [] = pos 0
signed (c ∷ s) = if is_char c b'-' then negate (whole_part s) else pos (whole_part (c ∷ s))

unfoldable pub float_int : String → Result ℤ
unfolding signed
float_int r =
    if r == "nan"
    then err value_error
    else if r == "inf" || r == "-inf"
    then err overflow_error
    else ok (signed r)

float_int_test :
    (float_int "7.95" ≡ ok (pos 7))
    × (float_int "-0.5" ≡ ok (pos 0))
    × (float_int "-7.0" ≡ ok (negsuc 6))
    × (float_int "5e-324" ≡ ok (pos 0))
    × (float_int "1.25e-07" ≡ ok (pos 0))
    × (float_int "9007199254740994.0" ≡ ok (pos 9007199254740994))
    × (float_int "1.2345e+20" ≡ ok (pos 123450000000000000000))
    × (float_int "1e+23" ≡ ok (pos 99999999999999991611392))
    × (float_int "-inf" ≡ err overflow_error)
unfolding float_int
float_int_test = (refl, refl, refl, refl, refl, refl, refl, refl, refl)
