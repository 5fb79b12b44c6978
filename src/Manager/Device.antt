-- ===== src/Manager/Device.antt =====
-- What the handlers of the manager have in common: which device a message is from, the check that
-- the device is known, the test of a database result, and the `try` that answers in any case.
pub mod Known
use versatile.Base.{String, Bool, true, ◌||◌, if◌then◌else◌}
use versatile.Py.Value.{
  failure, Result, ok, Value, bool, str, truthy, is_none, is_text, is_zero, get, last,
}
use versatile.Py.Exec.{pure, raise, lift, try_except, ◌>>=◌, ◌>>◌}
use versatile.World.{World}
use versatile.Manager.{Act, publish, cache_device, is_cached}
use versatile.Manager.Database.{db_select, id_query, send_db_query}

-- Without a relay the sender is the device, and else the last of the relay list is.
unfoldable pub device_of : String → Value → Result Value
device_of temp_id relay = if is_text relay "none" then ok (str temp_id) else last relay

-- `if v is None: v = "NULL"`
abbrev pub or_null : Value → Value
or_null v = if is_none v then str "NULL" else v

-- `if (v is None) or (v == "none"): v = "NULL"`
abbrev pub is_missing : Value → Bool
is_missing v = is_none v || is_text v "none"

abbrev pub or_null_text : Value → Value
or_null_text v = if is_missing v then str "NULL" else v

module _ (W : World) where
  -- `if db_error is not 0: raise Exception(text)`
  unfoldable pub require_zero : Value → String → Act W Unit
  require_zero db_error text = if is_zero db_error then pure tt else raise (failure text)

  -- `if exist is '' or not exist: raise Exception(text)`
  unfoldable pub require_some : Value → String → Act W Unit
  require_some exist text = if truthy exist then pure tt else raise (failure text)

  -- The existence check of `register`, `update` and `query`.
  unfoldable pub require_device : String → Act W Unit
  unfolding require_some
  require_device device = do
    cached ← is_cached W device
    if cached then pure tt else do
      db_payload ← send_db_query W (id_query "Device" "deviceId" device) db_select true
      exist ← lift (get db_payload "data")
      require_some exist "No Device Error"
      cache_device W device (bool true)

  -- `try:` the work, which makes the reply, and publish it; `except:` publish the error reply.
  unfoldable pub answer : String → Act W Value → Value → Act W Unit
  answer topic work error_reply =
      try_except (do reply ← work; publish W topic reply) (λ e. publish W topic error_reply)
