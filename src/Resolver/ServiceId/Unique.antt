-- ===== src/Resolver/ServiceId/Unique.antt =====
-- The running number in the ID of a service.
use Prim.Native.String.{count}
use text.Mathlib.TextLemmas.{append_inj, length-append}
use versatile.Base.{arith, ℕ, ◌<>◌, ◌≡◌, refl, sym, ap, ◌∙◌, inl, inr, Bool-cases, ltb, String}
use versatile.Base.Decimal.{
  decimal, value_of, value_of-decimal, value_of-zero, value_of-zeros_2, value_of-zeros_3,
}
use versatile.Py.Value.{Value, str}
use versatile.Resolver.ServiceId.{four_digits, service_id}

value_of-four_digits : (n : ℕ) → value_of (four_digits n) ≡ n
unfolding four_digits
value_of-four_digits n = elim (Bool-cases (ltb n 10)) [
  | inl a ↦ rw a (value_of-zeros_3 (decimal n) ∙ value_of-decimal n)
  | inr a ↦ elim (Bool-cases (ltb n 100)) [
    | inl b ↦ rw (a, b) (value_of-zeros_2 (decimal n) ∙ value_of-decimal n)
    | inr b ↦ elim (Bool-cases (ltb n 1000)) [
      | inl c ↦ rw (a, b, c) (value_of-zero (decimal n) ∙ value_of-decimal n)
      | inr c ↦ rw (a, b, c) (value_of-decimal n)
    ]
  ]
]

pub four_digits_injective : (m n : ℕ) → four_digits m ≡ four_digits n → m ≡ n
four_digits_injective m n h = sym (value_of-four_digits m) ∙ ap value_of h ∙ value_of-four_digits n

-- The types of services that have an ID of their own.
pub data ServiceType : Type 0 where
  streaming web voice file_transfer game best_effort : ServiceType

abbrev pub type_name : ServiceType → String
type_name streaming = "Streaming"
type_name web = "Web"
type_name voice = "Voice"
type_name file_transfer = "FileTransfer"
type_name game = "Game"
type_name best_effort = "BestEffort"

-- The bits of the type in front of the number and behind it.
abbrev pub front_bit : ServiceType → String
front_bit web = "1"
front_bit voice = "1"
front_bit _ = "0"

abbrev pub back_bit : ServiceType → String
back_bit voice = "1"
back_bit file_transfer = "1"
back_bit _ = "0"

pub service_id-parts :
    (t : ServiceType) (s : String)
    → service_id (str (type_name t)) s ≡ str (front_bit t <> s <> back_bit t)
unfolding service_id
service_id-parts streaming s = refl
service_id-parts web s = refl
service_id-parts voice s = refl
service_id-parts file_transfer s = refl
service_id-parts game s = refl
service_id-parts best_effort s = refl

one_front : (t : ServiceType) → count (front_bit t) ≡ 1
one_front streaming = refl
one_front web = refl
one_front voice = refl
one_front file_transfer = refl
one_front game = refl
one_front best_effort = refl

one_back : (t : ServiceType) → count (back_bit t) ≡ 1
one_back streaming = refl
one_back web = refl
one_back voice = refl
one_back file_transfer = refl
one_back game = refl
one_back best_effort = refl

-- Texts that differ in their first and last character at most.
inner_equal :
    (t u : ServiceType) (a b : String)
    → front_bit t <> a <> back_bit t ≡ front_bit u <> b <> back_bit u
    → a ≡ b
inner_equal t u a b h =
    let (_, tails) = append_inj h (one_front t ∙ sym (one_front u)) in
    let (equal, _) = append_inj {s₁ = a} {s₂ = b} {t₁ = back_bit t} {t₂ = back_bit u} tails (
      omega (
        arith,
        ap count tails,
        length-append a (back_bit t),
        length-append b (back_bit u),
        one_back t,
        one_back u,
      )) in
    equal

text_of : Value → String
text_of (str s) = s
text_of _ = ""

-- Two services of the known types that got the same ID had the same running number.
pub service_id_unique :
    (t u : ServiceType) (m n : ℕ)
    → service_id (str (type_name t)) (four_digits m)
      ≡ service_id (str (type_name u)) (four_digits n)
    → m ≡ n
unfolding text_of
service_id_unique t u m n h = four_digits_injective m n (
    inner_equal t u _ _ (
      ap text_of
        (sym (service_id-parts t (four_digits m)) ∙ h ∙ service_id-parts u (four_digits n))))
