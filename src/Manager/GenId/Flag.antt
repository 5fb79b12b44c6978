-- ===== src/Manager/GenId/Flag.antt =====
-- The layout of the flag byte: cache bit, segment bit, four bits of collision number, two bits 0.
use Prim.Native.Nat.{bit_or}
use versatile.Base.{
  holds_under, holds_under_lem, ℕ, ◌+◌, ◌*◌, ◌<◌, ◌≡◌, refl, Bool, true, false, ◌&&◌, ltb, nat_eq,
  arith, if◌then◌else◌,
}
use versatile.Py.Value.{failure, ok, err, Value, truthy}
use versatile.Manager.GenId.{gen_flag}

abbrev pub bit : Bool → ℕ
bit true = 1
bit false = 0

-- The flag that the fields spell.
abbrev pub flag_of : Bool → Bool → ℕ → ℕ
flag_of cache segment collision = 128 * bit cache + 64 * bit segment + 4 * collision

fields_or : (c : ℕ) → Bool
fields_or c =
    nat_eq (bit_or 0 (c * 4)) (c * 4)
    && nat_eq (bit_or 64 (c * 4)) (64 + c * 4)
    && nat_eq (bit_or 128 (c * 4)) (128 + c * 4)
    && nat_eq (bit_or 192 (c * 4)) (192 + c * 4)

table : holds_under fields_or 16 ≡ true
unfolding holds_under fields_or
table = refl

-- `|` adds where the fields do not overlap.
or_is_sum :
    (cache segment : Bool) (c : ℕ)
    → c < 16
    → bit_or (128 * bit cache + 64 * bit segment) (c * 4) ≡ flag_of cache segment c
unfolding fields_or
or_is_sum true true c h = ground (arith, holds_under_lem fields_or 16 c h table)
or_is_sum true false c h = ground (arith, holds_under_lem fields_or 16 c h table)
or_is_sum false true c h = ground (arith, holds_under_lem fields_or 16 c h table)
or_is_sum false false c h = ground (arith, holds_under_lem fields_or 16 c h table)

-- Within the range of the collision number the fields do not overlap, so that the flag is their
-- sum; past it the call raises.
pub gen_flag_lem :
    (cache segment : Value) (collision : ℕ)
    → gen_flag cache segment collision ≡ (
        if ltb 15 collision
        then err (failure "Collision range error")
        else ok (flag_of (truthy cache) (truthy segment) collision))
unfolding gen_flag
gen_flag_lem cache segment collision =
    ground (arith, or_is_sum (truthy cache) (truthy segment) collision)
