-- ===== src/Broker/Leave.antt =====
-- `leave` of the broker version: the device is deleted from the database and from the cache.
pub mod Done
pub mod Runs
use versatile.Base.{String, ◌<>◌, [], ◌∷◌, if◌then◌else◌}
use versatile.Base.Dict.{contains, erase}
use versatile.Py.Value.{key_error, Value, number, get}
use versatile.Manager.{dict_of}
use versatile.Manager.Database.{id_query}
use versatile.Broker.Proc.{Proc, ret, fail, read, write, lift, ◌>>=◌, ◌>>◌}
use versatile.Broker.Database.{db_delete, change_rows, forget_query}
use versatile.Broker.Device.{sender, answer}

-- `del deviceID_cache[id]`
unfoldable pub forget_device : String → Proc Unit
forget_device id = read (λ s.
    if contains id s.device_cache
    then write (λ s. record s { device_cache = erase id s.device_cache }) (ret tt)
    else fail key_error)

unfoldable pub leave_work : String → Value → Proc Value
unfolding sender change_rows forget_query forget_device
leave_work temp_id relay = do
  device ← sender temp_id relay
  id ← change_rows (id_query "Device" "deviceId" device) db_delete "Leave DB error"
  forget_query id
  forget_device device
  ret (dict_of (("error:", number 0) ∷ ("relay", relay) ∷ []))

unfoldable pub leave : String → Value → Proc Unit
unfolding answer
leave temp_id payload = do
  relay ← lift (get payload "relay")
  answer ("/configuration/leave_ack/" <> temp_id) (leave_work temp_id relay)
      (dict_of (("error:", number 1) ∷ ("relay", relay) ∷ []))
