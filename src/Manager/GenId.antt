-- ===== src/Manager/GenId.antt =====
-- `gen_flag`, `join_genID` and `register_genID`: the flag byte of a flex ID, and the search for an
-- ID that is not in use.
pub mod Flag
pub mod FreeFlag
pub mod Fresh
pub mod Providing
use Prim.Native.Nat.{bit_or}
use versatile.Base.{
  ℕ, zero, suc, ◌+◌, ◌*◌, String, ◌<>◌, Bool, true, List, [], ◌∷◌, length, ltb, if◌then◌else◌,
}
use versatile.Base.Decimal.{decimal}
use versatile.Base.Dict.{Dict, contains}
use versatile.Py.Value.{
  failure, recursion_error, Result, ok, err, Value, bool, str, list_of, truthy, get, as_text,
}
use versatile.Py.Exec.{pure, raise, lift, gets, ◌>>=◌, ◌>>◌}
use versatile.World.{World}
use versatile.Manager.{Act, dict_of, cache_device}
use versatile.Manager.Database.{db_select, id_query, db_proc, send_db_query}

abbrev pub collision_inc : ℕ
collision_inc = 4

-- Each bit that is set is put in by `|`; the collision number stands two bits up.
unfoldable pub gen_flag : Value → Value → ℕ → Result ℕ
gen_flag cache_bit segment_bit collision_mngt =
    let flag : ℕ = 0 in
    if ltb 15 collision_mngt
    then err (failure "Collision range error")
    else let flag = if truthy cache_bit then bit_or flag 128 else flag in
      let flag = if truthy segment_bit then bit_or flag 64 else flag in
      let collision_mngt = collision_mngt * 4 in ok (bit_or flag collision_mngt)

-- The `while` loop of `join_genID`; the fuel is one more than the keys of the cache.
unfoldable pub free_flag : ℕ → Dict Value → String → ℕ → ℕ
free_flag zero cache device flag = flag
free_flag (suc fuel) cache device flag =
    let more = free_flag fuel cache device (flag + collision_inc) in
    if contains (decimal flag <> device) cache then more else flag

module _ (W : World) where
  -- The first argument is the depth of calls that is left.
  unfoldable pub join_gen_id : ℕ → Value → ℕ → Act W String
  join_gen_id zero device_id flag = raise recursion_error
  join_gen_id (suc depth) device_id flag = do
    device ← lift (as_text device_id)
    flag ← gets (λ s. free_flag (suc (length s.device_cache)) s.device_cache device flag)
    let new_id = decimal flag <> device
    cache_device W new_id (str "None")
    payload ← db_proc W db_select (id_query "Device" "deviceId" new_id)
    exist ← lift (get payload "data")
    cache_device W new_id (bool true)
    let again = join_gen_id depth device_id (flag + collision_inc)
    if truthy exist then again else pure new_id

  unfoldable pub register_gen_id : ℕ → Value → ℕ → Act W String
  register_gen_id zero hash_val flag = raise recursion_error
  register_gen_id (suc depth) hash_val flag = do
    hash ← lift (as_text hash_val)
    let new_id = decimal flag <> hash
    payload ← send_db_query W (id_query "RegisterList" "providingId" new_id) db_select true
    exist ← lift (get payload "data")
    let again = register_gen_id depth hash_val (flag + collision_inc)
    if truthy exist then again else pure new_id
