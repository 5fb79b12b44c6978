-- ===== src/Manager/Leave.antt =====
-- `leave`: the device is deleted from the database and from the cache.
pub mod Fails
use versatile.Base.{String, ◌<>◌, true, [], ◌∷◌, if◌then◌else◌}
use versatile.Base.Dict.{contains, erase}
use versatile.Py.Value.{key_error, Value, number, get, as_text}
use versatile.Py.Exec.{pure, raise, lift, gets, modify, ◌>>=◌, ◌>>◌}
use versatile.World.{World}
use versatile.Manager.{Act, dict_of, is_cached}
use versatile.Manager.Database.{db_delete, id_query, send_db_query}
use versatile.Manager.Device.{device_of, require_zero, answer}

module _ (W : World) where
  -- `del deviceID_cache[id]`
  unfoldable pub forget_device : String → Act W Unit
  forget_device id = do
    cached ← is_cached W id
    if cached
        then modify (λ s. record s { device_cache = erase id s.device_cache })
        else raise key_error

  unfoldable pub leave_work : String → Value → Act W Value
  unfolding device_of require_zero forget_device
  leave_work temp_id relay = do
    device_id ← lift (device_of temp_id relay)
    device ← lift (as_text device_id)
    db_payload ← send_db_query W (id_query "Device" "deviceId" device) db_delete true
    db_error ← lift (get db_payload "error")
    require_zero W db_error "Leave DB error"
    forget_device device
    pure (dict_of (("error:", number 0) ∷ ("relay", relay) ∷ []))

  unfoldable pub leave : String → Value → Act W Unit
  leave temp_id payload = do
    relay ← lift (get payload "relay")
    answer W ("/configuration/leave_ack/" <> temp_id) (leave_work temp_id relay)
        (dict_of (("error:", number 1) ∷ ("relay", relay) ∷ []))
