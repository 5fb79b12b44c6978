-- ===== src/Base/Chars.antt =====
-- Which characters a text has.
use Prim.Native.Nat.{ℕ}
use Prim.Native.Char.{Char, code}
use Prim.Native.String.{String, [], ◌∷◌, ◌++◌}
use mathlib.Core.Path.{◌≡◌, refl}
use mathlib.Core.Bool.{Bool, false, ◌&&◌, ◌||◌}
use native.Mathlib.Omega.{arith}
use text.Mathlib.TextLemmas.{nil-append, cons-append}
use versatile.Base.Tests.{leb, nat_eq}

-- '0' to '9'
abbrev pub is_digit : Char → Bool
is_digit c = leb 48 (code c) && leb (code c) 57

abbrev pub is_char : Char → ℕ → Bool
is_char c n = nat_eq (code c) n

unfoldable pub has_char : ℕ → String → Bool
has_char n [] = false
has_char n (c ∷ s) = is_char c n || has_char n s

pub has_char-append : (n : ℕ) (s t : String) → has_char n (s ++ t) ≡ (has_char n s || has_char n t)
unfolding has_char
has_char-append n [] t = rw (nil-append t) refl
has_char-append n (c ∷ s) t = rw (cons-append c s t) (ground (arith, has_char-append n s t))
