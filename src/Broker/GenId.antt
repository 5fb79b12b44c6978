-- ===== src/Broker/GenId.antt =====
-- `join_genID` and `register_genID` of the broker version: the flag stands behind the device.
-- `gen_flag` is the same as in the version with a local database.
pub mod Search
pub mod Runs
use versatile.Base.{ℕ, zero, suc, ◌+◌, String, ◌<>◌, true, length, if◌then◌else◌}
use versatile.Base.Decimal.{decimal}
use versatile.Base.Dict.{Dict, insert}
use versatile.Base.FirstFree.{first_free}
use versatile.Py.Value.{recursion_error, Value, bool, str, truthy}
use versatile.Manager.Database.{id_query}
use versatile.Manager.GenId.{collision_inc}
use versatile.Broker.Proc.{Proc, ret, fail, read, write, ◌>>=◌, ◌>>◌}
use versatile.Broker.Database.{select_rows}

-- `deviceID + str(flag)`
abbrev pub flagged : String → ℕ → String
flagged id flag = id <> decimal flag

-- `deviceID_cache[id] = v`
unfoldable pub cache_device : String → Value → Proc Unit
cache_device id v = write (λ s. record s { device_cache = insert id v s.device_cache }) (ret tt)

-- The `while` loop of `join_genID`; the fuel is one more than the keys of the cache.
unfoldable pub free_flag : Dict Value → String → ℕ → ℕ
unfolding first_free
free_flag cache device flag = first_free (flagged device) (suc (length cache)) cache flag

-- The first argument is the depth of calls that is left.
unfoldable pub join_gen_id : ℕ → String → ℕ → Proc String
unfolding free_flag cache_device
join_gen_id zero device flag = fail recursion_error
join_gen_id (suc depth) device flag = do
  flag ← read (λ s. ret (free_flag s.device_cache device flag))
  let new_id = flagged device flag
  cache_device new_id (str "None")
  exist ← select_rows (id_query "Device" "deviceId" new_id)
  cache_device new_id (bool true)
  let again = join_gen_id depth device (flag + collision_inc)
  if truthy exist then again else ret new_id

unfoldable pub register_gen_id : ℕ → String → ℕ → Proc String
register_gen_id zero hash_val flag = fail recursion_error
register_gen_id (suc depth) hash_val flag = do
  let new_id = flagged hash_val flag
  exist ← select_rows (id_query "RegisterList" "providingId" new_id)
  let again = register_gen_id depth hash_val (flag + collision_inc)
  if truthy exist then again else ret new_id
