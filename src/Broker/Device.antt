-- ===== src/Broker/Device.antt =====
-- What the handlers have in common: the sender, the check that it is known, and the `try`.
use versatile.Base.{String, Bool, true, if◌then◌else◌}
use versatile.Base.Dict.{contains}
use versatile.Py.Value.{Value, bool, as_text}
use versatile.Manager.Database.{id_query}
use versatile.Manager.Device.{device_of}
use versatile.Broker.Proc.{Proc, ret, read, publish, attempt, lift, ◌>>=◌, ◌>>◌}
use versatile.Broker.Database.{select_rows, require_some}
use versatile.Broker.GenId.{cache_device}

-- The device behind a message: it is printed, so it is a text.
unfoldable pub sender : String → Value → Proc String
unfolding device_of
sender temp_id relay = do device_id ← lift (device_of temp_id relay); lift (as_text device_id)

-- `id in deviceID_cache`
unfoldable pub is_cached : String → Proc Bool
is_cached id = read (λ s. ret (contains id s.device_cache))

-- The existence check of `register` and `update`.
unfoldable pub require_device : String → Proc Unit
unfolding is_cached require_some cache_device
require_device device = do
  cached ← is_cached device
  if cached then ret tt else do
    exist ← select_rows (id_query "Device" "deviceId" device)
    require_some exist "No Device Error"
    cache_device device (bool true)

-- `try:` the work, which makes the reply, and publish it; `except:` publish the error reply.
unfoldable pub answer : String → Proc Value → Value → Proc Unit
answer topic work error_reply =
    attempt work (λ e. publish topic error_reply (ret tt)) (λ reply. publish topic reply (ret tt))
