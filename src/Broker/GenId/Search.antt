-- ===== src/Broker/GenId/Search.antt =====
-- The `while` loop of `join_genID` in the broker version.
use text.Mathlib.TextLemmas.{append_cancel_left}
use versatile.Base.{ℕ, suc, ◌+◌, ◌*◌, ◌<◌, String, ◌≡◌, true, false, length, arith}
use versatile.Base.Decimal.{decimal, decimal_injective}
use versatile.Base.Dict.{Dict, contains}
use versatile.Base.FirstFree.{contains-first_free, first_free_steps}
use versatile.Py.Value.{Value}
use versatile.Broker.GenId.{flagged, free_flag}

flagged_injective : (device : String) (i j : ℕ) → flagged device i ≡ flagged device j → i ≡ j
flagged_injective device i j h =
    decimal_injective i j (append_cancel_left device (decimal i) (decimal j) h)

-- The loop of `join_genID` ends at the first ID of its sequence that is not cached: all that it passes are cached.
pub free_flag_first :
    (cache : Dict Value) (device : String) (flag : ℕ)
    → (k : ℕ) × (free_flag cache device flag ≡ flag + 4 * k)
      × (contains (flagged device (free_flag cache device flag)) cache ≡ false)
      × ((i : ℕ) → i < k → contains (flagged device (flag + 4 * i)) cache ≡ true)
unfolding free_flag
free_flag_first cache device flag =
    let (k, same, passed) =
      first_free_steps (flagged device) (flagged_injective device) (suc (length cache)) cache
        flag in
    (
      k,
      same,
      contains-first_free (flagged device) (flagged_injective device) (suc (length cache)) cache
          flag (omega arith),
      passed,
    )
