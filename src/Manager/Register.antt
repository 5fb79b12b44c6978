-- ===== src/Manager/Register.antt =====
-- `register`: the services and contents of a device get IDs and are stored.
pub mod Attributes
pub mod Stored
use versatile.Base.{ℕ, suc, ◌+◌, String, ◌<>◌, true, List, [], ◌∷◌, map, if◌then◌else◌}
use versatile.Base.Decimal.{decimal}
use versatile.Py.Value.{
  Value, str, dict, list_of, Fields, number, truthy, get, put, iterate, as_text,
}
use versatile.Py.Exec.{pure, lift, traverse, ◌>>=◌, ◌>>◌}
use versatile.World.{World}
use versatile.Manager.{Act, dict_of, fields}
use versatile.Manager.Database.{db_insert, send_db_query}
use versatile.Manager.GenId.{gen_flag, register_gen_id}
use versatile.Manager.Device.{device_of, require_device, require_zero, answer}

-- The loop that writes 'attr1', 'attr2', … behind the first `i` attributes.
unfoldable pub put_attributes : ℕ → List Value → Fields → Fields
put_attributes i [] columns = columns
put_attributes i (attr ∷ attrs) columns =
    put_attributes (suc i) attrs (put ("attr" <> decimal (i + 1)) attr columns)

module _ (W : World) where
  -- The ID of one item: searched for if the item says so, and else taken as it comes.
  unfoldable pub item_id : Value → Value → ℕ → Act W String
  item_id collision_avoid hash_val flag =
      if truthy collision_avoid
      then register_gen_id W W.call_depth hash_val flag
      else do hash ← lift (as_text hash_val); pure (decimal flag <> hash)

  -- One round of the loop: the entry of `idList` and the entry of `regList`.
  unfoldable pub register_item : String → Value → Act W (Value × Value)
  unfolding item_id put_attributes
  register_item device item = do
    index ← lift (get item "index")
    register_type ← lift (get item "registerType")
    category ← lift (get item "category")
    cache ← lift (get item "cache")
    segment ← lift (get item "segment")
    collision_avoid ← lift (get item "collisionAvoid")
    attributes ← lift (get item "attributes")
    attr_list ← lift (iterate attributes)
    hash_val ← lift (get item "hash")
    flag ← lift (gen_flag cache segment 0)
    new_id ← item_id collision_avoid hash_val flag
    index ← lift (as_text index)
    let columns = fields (
        ("deviceId", str device)
        ∷ ("providingId", str new_id)
        ∷ ("hash", hash_val)
        ∷ ("registerType", register_type)
        ∷ ("category", category)
        ∷ [])
    pure (dict_of ((index, str new_id) ∷ []), dict (put_attributes 0 attr_list columns))

  unfoldable pub register_work : String → Value → Value → Value → Act W Value
  unfolding device_of require_device register_item require_zero
  register_work temp_id payload relay register_id = do
    device_id ← lift (device_of temp_id relay)
    device ← lift (as_text device_id)
    require_device W device
    register_list ← lift (get payload "registerList")
    items ← lift (iterate register_list)
    registered ← traverse (register_item device) items
    let id_list = list_of (map (λ (entry, row). entry) registered)
    let reg_list = list_of (map (λ (entry, row). row) registered)
    db_payload ←
        send_db_query W (dict_of (("table", str "RegisterList") ∷ ("data", reg_list) ∷ []))
          db_insert true
    db_error ← lift (get db_payload "error")
    require_zero W db_error "Register DB error"
    pure (
        dict_of (
          ("error:", number 0)
          ∷ ("registerID", register_id)
          ∷ ("idList", id_list)
          ∷ ("relay", relay)
          ∷ []))

  unfoldable pub register : String → Value → Act W Unit
  register temp_id payload = do
    relay ← lift (get payload "relay")
    register_id ← lift (get payload "registerID")
    answer W ("/configuration/register_ack/" <> temp_id)
        (register_work temp_id payload relay register_id)
        (dict_of (("error", number 1) ∷ ("registerID", register_id) ∷ ("relay", relay) ∷ []))
