-- ===== src/Broker/Database/Free.antt =====
-- The loop of `send_DBquery` that draws IDs: whether some ID can end it.
use Prim.Native.String.{[], ◌∷◌}
use versatile.Base.{
  ℕ, zero, suc, ◌+◌, ◌*◌, ◌/◌, ◌%◌, ◌<◌, String, ◌<>◌, ◌≡◌, ◌⊎◌, inl, inr, Bool, true, false, arith,
  Bool-cases, ltb,
}
use versatile.Base.Dict.{Dict, contains}
use versatile.Broker.Database.{hex_digit, hex, query_id}

last_one : (d bound : ℕ) → d < suc bound → ltb d bound ≡ false → d ≡ bound
last_one d bound lt over = ground arith

-- One number under a bound has the first property, or all have the second.
first_or_all :
    (P Q : ℕ → Type 0) (bound : ℕ)
    → ((d : ℕ) → P d ⊎ Q d)
    → ((d : ℕ) × (d < bound) × P d) ⊎ ((d : ℕ) → d < bound → Q d)
first_or_all P Q zero decide = inr (λ d lt. absurd (omega arith))
first_or_all P Q (suc bound) decide = elim (decide bound) [
  | inl p ↦ inl (bound, omega arith, p)
  | inr q ↦ elim (first_or_all P Q bound decide) [
    | inl (d, lt, p) ↦ inl (d, omega arith, p)
    | inr all ↦ inr (λ d lt. elim (Bool-cases (ltb d bound)) [
      | inl under ↦ all d (ground arith)
      | inr over ↦ rw (last_one d bound lt over) q
    ])
  ]
]

last_digit : (n d : ℕ) → d < 16 → (n * 16 + d) % 16 ≡ d
last_digit n d lt = omega arith

other_digits : (n d : ℕ) → d < 16 → (n * 16 + d) / 16 ≡ n
other_digits n d lt = omega arith

free_hex :
    (p : String → Bool) (k : ℕ) (out : String)
    → ((n : ℕ) × (p (hex k n out) ≡ false)) ⊎ ((n : ℕ) → p (hex k n out) ≡ true)
unfolding hex
free_hex p zero out = elim (Bool-cases (p out)) [
  | inl used ↦ inr (λ n. used)
  | inr free ↦ inl (0, free)
]
free_hex p (suc k) out = elim (first_or_all _ _ 16 (λ d. free_hex p k (hex_digit d ∷ out))) [
  | inl (d, lt, (n, free)) ↦ inl (n * 16 + d, rw (last_digit n d lt, other_digits n d lt) free)
  | inr used ↦ inr (λ n. used (n % 16) (omega arith) (n / 16))
]

pub free_query_id :
    {V : Type 0} (cache : Dict V)
    → ((n : ℕ) × (contains (query_id n) cache ≡ false))
      ⊎ ((n : ℕ) → contains (query_id n) cache ≡ true)
unfolding query_id
free_query_id cache = free_hex (λ id. contains ("0x" <> id) cache) 8 []
