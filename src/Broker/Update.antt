-- ===== src/Broker/Update.antt =====
-- `update` of the broker version: a service or content is deregistered, or gets new attributes.
use versatile.Base.{String, ◌<>◌, [], ◌∷◌, if◌then◌else◌}
use versatile.Py.Value.{Value, str, dict, list_of, end, number, truthy, get, iterate}
use versatile.Manager.{dict_of}
use versatile.Manager.Register.{put_attributes}
use versatile.Broker.Proc.{Proc, ret, lift, ◌>>=◌, ◌>>◌}
use versatile.Broker.Database.{
  db_delete, db_update, select_rows, change_rows, forget_query, require_some,
}
use versatile.Broker.Device.{sender, require_device, answer}

unfoldable pub deregister : Value → Proc Unit
unfolding change_rows forget_query
deregister providing_id = do
  id ←
      change_rows
        (dict_of (
          ("table", str "RegisterList")
          ∷ ("data", list_of (dict_of (("providingId", providing_id) ∷ []) ∷ []))
          ∷ []))
        db_delete "Update DB error"
  forget_query id

unfoldable pub change_attributes : Value → Value → Proc Unit
unfolding change_rows forget_query put_attributes
change_attributes payload providing_id = do
  attributes ← lift (get payload "attributes")
  attr_list ← lift (iterate attributes)
  let columns = dict (put_attributes 0 attr_list end)
  id ←
      change_rows
        (dict_of (
          ("table", str "RegisterList")
          ∷ ("sdata", list_of (columns ∷ []))
          ∷ ("wdata", list_of (dict_of (("providingId", providing_id) ∷ []) ∷ []))
          ∷ []))
        db_update "Update DB error"
  forget_query id

-- The second check asks the database with an empty query, `{}`.
unfoldable pub update_work : String → Value → Value → Value → Proc Value
unfolding sender require_device require_some select_rows deregister change_attributes
update_work temp_id payload relay update_id = do
  device ← sender temp_id relay
  require_device device
  providing_id ← lift (get payload "id")
  exist ← select_rows (dict end)
  require_some exist "No Content/Service Error"
  wanted ← lift (get payload "deregister")
  if truthy wanted then deregister providing_id else change_attributes payload providing_id
  ret (dict_of (("error:", number 0) ∷ ("updateID", update_id) ∷ ("relay", relay) ∷ []))

unfoldable pub update : String → Value → Proc Unit
unfolding answer
update temp_id payload = do
  update_id ← lift (get payload "updateID")
  relay ← lift (get payload "relay")
  answer ("/configuration/update_ack/" <> temp_id) (update_work temp_id payload relay update_id)
      (dict_of (("error", number 1) ∷ ("updateID", update_id) ∷ ("relay", relay) ∷ []))
