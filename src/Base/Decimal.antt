-- ===== src/Base/Decimal.antt =====
-- `str(n)` of a number: its decimal digits, and the number that they spell.
use Prim.Native.Nat.{ℕ, zero, suc, ◌+◌, ◌-◌, ◌*◌, ◌/◌, ◌%◌, ◌<◌, ◌≤◌}
use Prim.Native.Char.{Char, code}
use Prim.Native.String.{String, [], ◌∷◌, ◌++◌}
use mathlib.Core.Path.{◌≡◌, refl, sym, ap, ◌∙◌}
use mathlib.Core.Bool.{false}
use mathlib.Core.Logic.{◌⊎◌, inl, inr}
use native.Mathlib.Omega.{arith}
use text.Mathlib.TextLemmas.{append_cancel_right, cons-append, nil-append}
use versatile.Base.Chars.{has_char}
use versatile.Base.Tests.{ltb, if◌then◌else◌, Bool-cases}

unfoldable pub digit : ℕ → Char
digit zero = "0"
digit (suc zero) = "1"
digit (suc (suc zero)) = "2"
digit (suc (suc (suc zero))) = "3"
digit (suc (suc (suc (suc zero)))) = "4"
digit (suc (suc (suc (suc (suc zero))))) = "5"
digit (suc (suc (suc (suc (suc (suc zero)))))) = "6"
digit (suc (suc (suc (suc (suc (suc (suc zero))))))) = "7"
digit (suc (suc (suc (suc (suc (suc (suc (suc zero)))))))) = "8"
digit _ = "9"

pub code-digit : (d : ℕ) → d < 10 → code (digit d) ≡ 48 + d
unfolding digit
code-digit zero h = refl
code-digit (suc zero) h = refl
code-digit (suc (suc zero)) h = refl
code-digit (suc (suc (suc zero))) h = refl
code-digit (suc (suc (suc (suc zero)))) h = refl
code-digit (suc (suc (suc (suc (suc zero))))) h = refl
code-digit (suc (suc (suc (suc (suc (suc zero)))))) h = refl
code-digit (suc (suc (suc (suc (suc (suc (suc zero))))))) h = refl
code-digit (suc (suc (suc (suc (suc (suc (suc (suc zero)))))))) h = refl
code-digit (suc (suc (suc (suc (suc (suc (suc (suc (suc zero))))))))) h = refl
code-digit (suc (suc (suc (suc (suc (suc (suc (suc (suc (suc k)))))))))) h = absurd (omega arith)

-- The digits of `n` in front of `out`. Below `fuel` the number runs out first.
digits : ℕ → ℕ → String → String
digits zero n out = out
digits (suc fuel) n out =
    let more = digits fuel (n / 10) (digit (n % 10) ∷ out) in
    if ltb n 10 then digit n ∷ out else more

unfoldable pub decimal : ℕ → String
unfolding digits digit
decimal n = digits (suc n) n []

-- The number that digits spell behind `n`.
unfoldable pub value : ℕ → String → ℕ
value n [] = n
value n (c ∷ s) = value (n * 10 + (code c - 48)) s

value-digits : (fuel n : ℕ) (out : String) → n < fuel → value 0 (digits fuel n out) ≡ value n out
unfolding value digits
value-digits zero n out h = absurd (omega arith)
value-digits (suc fuel) n out h = elim (Bool-cases (ltb n 10)) [
  | inl small ↦ rw small (ap (λ k. value k out) (omega (arith, code-digit n (ground arith))))
  | inr large ↦ rw large (
      value-digits fuel (n / 10) (digit (n % 10) ∷ out) (ground arith)
      ∙ ap (λ k. value k out) (omega (arith, code-digit (n % 10) (omega arith))))
]

pub value-decimal : (n : ℕ) → value 0 (decimal n) ≡ n
unfolding decimal value
value-decimal n = value-digits (suc n) n [] (omega arith)

-- Zeros in front do not count.
pub value_of : String → ℕ
value_of s = value 0 s

pub value_of-decimal : (n : ℕ) → value_of (decimal n) ≡ n
unfolding value_of
value_of-decimal n = value-decimal n

pub value_of-zero : (s : String) → value_of ("0" ++ s) ≡ value_of s
unfolding value_of value
value_of-zero s = rw (cons-append "0" [] s, nil-append s) refl

pub value_of-zeros_2 : (s : String) → value_of ("00" ++ s) ≡ value_of s
unfolding value_of value
value_of-zeros_2 s = rw (cons-append "0" "0" s, cons-append "0" [] s, nil-append s) refl

pub value_of-zeros_3 : (s : String) → value_of ("000" ++ s) ≡ value_of s
unfolding value_of value
value_of-zeros_3 s =
    rw (cons-append "0" "00" s, cons-append "0" "0" s, cons-append "0" [] s, nil-append s) refl

-- Distinct numbers have distinct decimal texts.
pub decimal_injective : (m n : ℕ) → decimal m ≡ decimal n → m ≡ n
decimal_injective m n h = sym (value-decimal m) ∙ ap (value 0) h ∙ value-decimal n

-- So they do in front of one text.
pub decimal_prefix_injective : (m n : ℕ) (s : String) → decimal m ++ s ≡ decimal n ++ s → m ≡ n
decimal_prefix_injective m n s h =
    decimal_injective m n (append_cancel_right (decimal m) (decimal n) s h)

has_char-digits :
    (q fuel n : ℕ) (out : String)
    → (q < 48) ⊎ (57 < q)
    → has_char q (digits fuel n out) ≡ has_char q out
unfolding digits has_char
has_char-digits q zero n out h = refl
has_char-digits q (suc fuel) n out h = ground (
  arith,
  has_char-digits q fuel (n / 10) (digit (n % 10) ∷ out),
  code-digit n,
  code-digit (n % 10),
)

-- A decimal text has digits only.
pub has_char-decimal : (q n : ℕ) → (q < 48) ⊎ (57 < q) → has_char q (decimal n) ≡ false
unfolding decimal has_char
has_char-decimal q n h = has_char-digits q (suc n) n [] h

-- One digit or more.
pub data Numeral : String → Type 0 where
  last : (c : Char) → 48 ≤ code c → code c ≤ 57 → Numeral (c ∷ [])
  before : (c : Char) (s : String) → 48 ≤ code c → code c ≤ 57 → Numeral s → Numeral (c ∷ s)

Numeral-last : (d : ℕ) → d < 10 → Numeral (digit d ∷ [])
Numeral-last d h = last (digit d) (omega (arith, code-digit d h)) (omega (arith, code-digit d h))

Numeral-before : (d : ℕ) (s : String) → d < 10 → Numeral s → Numeral (digit d ∷ s)
Numeral-before d s h =
    before (digit d) s (omega (arith, code-digit d h)) (omega (arith, code-digit d h))

digits-Numeral : (fuel n : ℕ) (out : String) → Numeral out → Numeral (digits fuel n out)
unfolding digits
digits-Numeral zero n out h = h
digits-Numeral (suc fuel) n out h = elim (Bool-cases (ltb n 10)) [
  | inl small ↦ rw small (Numeral-before n out (ground arith) h)
  | inr large ↦
      rw large (digits-Numeral fuel (n / 10) _ (Numeral-before (n % 10) out (omega arith) h))
]

pub decimal-Numeral : (n : ℕ) → Numeral (decimal n)
unfolding decimal digits
decimal-Numeral n = elim (Bool-cases (ltb n 10)) [
  | inl small ↦ rw small (Numeral-last n (ground arith))
  | inr large ↦ rw large (digits-Numeral n (n / 10) _ (Numeral-last (n % 10) (omega arith)))
]

decimal_196 : decimal 196 ≡ "196"
unfolding decimal
decimal_196 = refl
