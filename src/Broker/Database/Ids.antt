-- ===== src/Broker/Database/Ids.antt =====
-- The IDs of queries: eight hexadecimal digits, which are a level of a topic.
use Prim.Native.String.{[], ◌∷◌}
use versatile.Base.{
  ℕ, zero, suc, ◌%◌, ◌/◌, ◌<◌, String, ◌<>◌, ◌≡◌, ◌∙◌, refl, false, true, arith, Bool, not,
  holds_under, holds_under_lem,
}
use versatile.Base.Chars.{is_char, has_char, has_char-append}
use versatile.Base.Decimal.{digit}
use versatile.Broker.Database.{hex_digit, hex, query_id}

no_slash : ℕ → Bool
no_slash d = not (is_char (hex_digit d) b'/')

digits_checked : holds_under no_slash 16 ≡ true
unfolding holds_under no_slash hex_digit digit
digits_checked = refl

hex_digit_no_slash : (d : ℕ) → d < 16 → is_char (hex_digit d) b'/' ≡ false
unfolding no_slash
hex_digit_no_slash d h = ground (arith, holds_under_lem no_slash 16 d h digits_checked)

has_char-hex : (k n : ℕ) (out : String) → has_char b'/' (hex k n out) ≡ has_char b'/' out
unfolding hex has_char
has_char-hex zero n out = refl
has_char-hex (suc k) n out =
    has_char-hex k (n / 16) (hex_digit (n % 16) ∷ out) ∙ ground (arith, hex_digit_no_slash (n % 16))

query_id-eq : (n : ℕ) → query_id n ≡ "0x" <> hex 8 n []
unfolding query_id
query_id-eq n = refl

pub query_id-IsLevel : (n : ℕ) → has_char b'/' (query_id n) ≡ false
unfolding has_char
query_id-IsLevel n =
    rw (query_id-eq n, has_char-append b'/' "0x" (hex 8 n []), has_char-hex 8 n []) refl
