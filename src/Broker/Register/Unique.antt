-- ===== src/Broker/Register/Unique.antt =====
-- When two items get the same ID without a search, in the broker version.
use Prim.Native.String.{[], ◌∷◌}
use text.Mathlib.TextLemmas.{append_cancel_right, cons-append, nil-append}
use versatile.Base.{ℕ, code, Char, String, ◌<>◌, ◌≡◌, refl, sym, ap, ◌∙◌, Bool, true, false, arith}
use versatile.Base.Decimal.{decimal}
use versatile.Py.Value.{Value, ok, truthy}
use versatile.Manager.GenId.{gen_flag}
use versatile.Manager.GenId.Flag.{gen_flag_lem, flag_of}
use versatile.Broker.GenId.{flagged}

-- The code of the last character.
abbrev end_of : ℕ → String → ℕ
end_of n [] = n
end_of n (c ∷ s) = end_of (code c) s

end_of-append : (n : ℕ) (s : String) (c : Char) → end_of n (s <> (c ∷ [])) ≡ code c
end_of-append n [] c = rw (nil-append (c ∷ [])) refl
end_of-append n (d ∷ s) c = rw (cons-append d s (c ∷ [])) (end_of-append (code d) s c)

end_of-append_2 : (n : ℕ) (s : String) (b c : Char) → end_of n (s <> (b ∷ c ∷ [])) ≡ code c
end_of-append_2 n [] b c = rw (nil-append (b ∷ c ∷ [])) refl
end_of-append_2 n (d ∷ s) b c = rw (cons-append d s (b ∷ c ∷ [])) (end_of-append_2 (code d) s b c)

end_of-append_3 : (n : ℕ) (s : String) (a b c : Char) → end_of n (s <> (a ∷ b ∷ c ∷ [])) ≡ code c
end_of-append_3 n [] a b c = rw (nil-append (a ∷ b ∷ c ∷ [])) refl
end_of-append_3 n (d ∷ s) a b c =
    rw (cons-append d s (a ∷ b ∷ c ∷ [])) (end_of-append_3 (code d) s a b c)

-- The last digits of 0, 64, 128 and 192 differ.
abbrev last_code : Bool → Bool → ℕ
last_code false false = 48
last_code false true = 52
last_code true false = 56
last_code true true = 50

end_of-flagged :
    (hash : String) (cache segment : Bool)
    → end_of 0 (flagged hash (flag_of cache segment 0)) ≡ last_code cache segment
unfolding decimal
end_of-flagged hash false false = end_of-append 0 hash "0"
end_of-flagged hash false true = end_of-append_2 0 hash "6" "4"
end_of-flagged hash true false = end_of-append_3 0 hash "1" "2" "8"
end_of-flagged hash true true = end_of-append_3 0 hash "1" "9" "2"

last_code_injective : (c s c' s' : Bool) → last_code c s ≡ last_code c' s' → (c ≡ c') × (s ≡ s')
last_code_injective c s c' s' h = ground arith

same_flag : {c s c' s' : Bool} → c ≡ c' → s ≡ s' → flag_of c' s' 0 ≡ flag_of c s 0
same_flag cache segment = rw (cache, segment) refl

flagged_injective :
    (hash hash' : String) (c s c' s' : Bool)
    → flagged hash (flag_of c s 0) ≡ flagged hash' (flag_of c' s' 0)
    → (hash ≡ hash') × (c ≡ c') × (s ≡ s')
flagged_injective hash hash' c s c' s' h =
    let (cache, segment) =
      last_code_injective c s c' s'
        (sym (end_of-flagged hash c s) ∙ ap (end_of 0) h ∙ end_of-flagged hash' c' s') in
    (
      append_cancel_right hash hash' (decimal (flag_of c' s' 0))
          (ap (λ n. hash <> decimal n) (same_flag cache segment) ∙ h),
      cache,
      segment,
    )

-- Two IDs that `register` makes without a search, each a hash with the flag that `gen_flag` gives for a
-- cache bit and a segment bit behind it, are the same only if the hashes are, and both or neither cache
-- bits are set, and both or neither segment bits are.
pub register_id_injective :
    (hash hash' : String) (cache segment cache' segment' : Value) (flag flag' : ℕ)
    → gen_flag cache segment 0 ≡ ok flag
    → gen_flag cache' segment' 0 ≡ ok flag'
    → flagged hash flag ≡ flagged hash' flag'
    → (hash ≡ hash') × (truthy cache ≡ truthy cache') × (truthy segment ≡ truthy segment')
register_id_injective hash hash' cache segment cache' segment' flag flag' one other same =
    let flag_eq : flag ≡ flag_of (truthy cache) (truthy segment) 0 =
      let e = gen_flag_lem cache segment 0 in cc in
    let flag_eq' : flag' ≡ flag_of (truthy cache') (truthy segment') 0 =
      let e = gen_flag_lem cache' segment' 0 in cc in
    flagged_injective hash hash' _ _ _ _
      (ap (flagged hash) (sym flag_eq) ∙ same ∙ ap (flagged hash') flag_eq')
