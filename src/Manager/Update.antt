-- ===== src/Manager/Update.antt =====
-- `update`: a service or content is deregistered, or gets new attributes.
pub mod Fails
use versatile.Base.{String, ◌<>◌, true, [], ◌∷◌, if◌then◌else◌}
use versatile.Py.Value.{Value, str, dict, list_of, end, number, truthy, get, iterate, as_text}
use versatile.Py.Exec.{pure, lift, ◌>>=◌, ◌>>◌}
use versatile.World.{World}
use versatile.Manager.{Act, dict_of}
use versatile.Manager.Database.{db_select, db_delete, db_update, send_db_query}
use versatile.Manager.Device.{device_of, require_device, require_some, require_zero, answer}
use versatile.Manager.Register.{put_attributes}

module _ (W : World) where
  unfoldable pub deregister : Value → Act W Unit
  unfolding require_zero
  deregister providing_id = do
    payload ←
        send_db_query W
          (dict_of (
            ("table", str "RegisterList")
            ∷ ("data", list_of (dict_of (("providingId", providing_id) ∷ []) ∷ []))
            ∷ []))
          db_delete true
    db_error ← lift (get payload "error")
    require_zero W db_error "Update DB error"

  unfoldable pub change_attributes : Value → Value → Act W Unit
  unfolding require_zero put_attributes
  change_attributes payload providing_id = do
    attributes ← lift (get payload "attributes")
    attr_list ← lift (iterate attributes)
    let columns = dict (put_attributes 0 attr_list end)
    payload ←
        send_db_query W
          (dict_of (
            ("table", str "RegisterList")
            ∷ ("sdata", list_of (columns ∷ []))
            ∷ ("wdata", list_of (dict_of (("providingId", providing_id) ∷ []) ∷ []))
            ∷ []))
          db_update true
    db_error ← lift (get payload "error")
    require_zero W db_error "Update DB error"

  -- The second check asks the database with an empty query, `{}`.
  unfoldable pub update_work : String → Value → Value → Value → Act W Value
  unfolding device_of require_device require_some deregister change_attributes
  update_work temp_id payload relay update_id = do
    device_id ← lift (device_of temp_id relay)
    device ← lift (as_text device_id)
    require_device W device
    providing_id ← lift (get payload "id")
    db_payload ← send_db_query W (dict end) db_select true
    exist ← lift (get db_payload "data")
    require_some W exist "No Content/Service Error"
    wanted ← lift (get payload "deregister")
    if truthy wanted then deregister providing_id else change_attributes payload providing_id
    pure (dict_of (("error:", number 0) ∷ ("updateID", update_id) ∷ ("relay", relay) ∷ []))

  unfoldable pub update : String → Value → Act W Unit
  update temp_id payload = do
    update_id ← lift (get payload "updateID")
    relay ← lift (get payload "relay")
    answer W ("/configuration/update_ack/" <> temp_id) (update_work temp_id payload relay update_id)
        (dict_of (("error", number 1) ∷ ("updateID", update_id) ∷ ("relay", relay) ∷ []))
