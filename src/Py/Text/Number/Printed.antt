-- ===== src/Py/Text/Number/Printed.antt =====
-- `int(str(n))`
use versatile.Base.{ℕ, ◌+◌, ◌-◌, ◌*◌, code, ◌≡◌, ◌∙◌, ap, String, some, arith}
use versatile.Base.Int.{pos}
use versatile.Base.Decimal.{decimal, value, value-decimal, Numeral, last, before, decimal-Numeral}
use versatile.Py.Value.{ok, str}
use versatile.Py.Text.Number.{more_digits, digits_of, parse_int, is_space, to_int}

more_digits-Numeral : (n : ℕ) {s : String} → Numeral s → more_digits n s ≡ some (value n s)
unfolding more_digits value
more_digits-Numeral n (last c low high) = ground arith
more_digits-Numeral n (before c s low high more) =
    ground (arith, more_digits-Numeral (n * 10 + (code c - 48)) more)

parse_int-Numeral : {s : String} → Numeral s → parse_int s ≡ ok (pos (value 0 s))
unfolding parse_int is_space digits_of value more_digits
parse_int-Numeral (last c low high) = ground arith
parse_int-Numeral (before c s low high more) =
    ground (arith, more_digits-Numeral (code c - 48) more)

-- The text of a number is read back as that number.
pub to_int-decimal : (n : ℕ) → to_int (str (decimal n)) ≡ ok (pos n)
unfolding to_int
to_int-decimal n = parse_int-Numeral (decimal-Numeral n) ∙ ap (λ n. ok (pos n)) (value-decimal n)
