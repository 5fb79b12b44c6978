-- ===== src/Broker/Register.antt =====
-- `register` of the broker version. The list of attributes is made once, in front of the loop over
-- the items, so a row takes its attributes from the items before it as well.
pub mod Sent
pub mod Unique
use versatile.Base.{ℕ, String, ◌<>◌, List, [], ◌∷◌, ◌++◌, length, take, if◌then◌else◌}
use versatile.Py.Value.{Value, str, dict, list_of, number, truthy, get, iterate, as_text}
use versatile.Manager.{dict_of, fields}
use versatile.Manager.GenId.{gen_flag}
use versatile.Manager.Register.{put_attributes}
use versatile.Broker.Proc.{Proc, ret, lift, ◌>>=◌, ◌>>◌}
use versatile.Broker.Database.{db_insert, change_rows, forget_query}
use versatile.Broker.GenId.{flagged, register_gen_id}
use versatile.Broker.Device.{sender, require_device, answer}

-- What the loop has built: `idList`, `regList` and `attrList`.
pub record Batch : Type 0 where
  pub id_list : List Value
  pub reg_list : List Value
  pub attr_list : List Value

module _ (call_depth : ℕ) where
  -- The ID of one item: searched for if the item says so, and else taken as it comes.
  unfoldable pub item_id : Value → Value → ℕ → Proc String
  unfolding register_gen_id
  item_id collision_avoid hash_val flag = do
    hash ← lift (as_text hash_val)
    if truthy collision_avoid then register_gen_id call_depth hash flag else ret (flagged hash flag)

  -- One round of the loop. The row takes as many attributes as the item has, from the front.
  unfoldable pub register_item : String → Batch → Value → Proc Batch
  unfolding item_id put_attributes
  register_item device batch item = do
    index ← lift (get item "index")
    register_type ← lift (get item "registerType")
    category ← lift (get item "category")
    cache ← lift (get item "cache")
    segment ← lift (get item "segment")
    collision_avoid ← lift (get item "collisionAvoid")
    attributes ← lift (get item "attributes")
    attributes ← lift (iterate attributes)
    let attr_list = batch.attr_list ++ attributes
    hash_val ← lift (get item "hash")
    flag ← lift (gen_flag cache segment 0)
    new_id ← item_id collision_avoid hash_val flag
    index ← lift (as_text index)
    let columns = fields (
        ("deviceId", str device)
        ∷ ("providingId", str new_id)
        ∷ ("hash", hash_val)
        ∷ ("registerType", register_type)
        ∷ ("category", category)
        ∷ [])
    ret (record {
      id_list = batch.id_list ++ dict_of ((index, str new_id) ∷ []) ∷ [];
      reg_list =
          batch.reg_list
          ++ dict (put_attributes 0 (take (length attributes) attr_list) columns) ∷ [];
      attr_list = attr_list;
    })

  unfoldable pub register_items : String → Batch → List Value → Proc Batch
  unfolding register_item
  register_items device batch [] = ret batch
  register_items device batch (item ∷ items) = do
    batch ← register_item device batch item
    register_items device batch items

  unfoldable pub register_work : String → Value → Value → Value → Proc Value
  unfolding sender require_device register_items change_rows forget_query
  register_work temp_id payload relay register_id = do
    device ← sender temp_id relay
    require_device device
    register_list ← lift (get payload "registerList")
    items ← lift (iterate register_list)
    batch ← register_items device (record { id_list = []; reg_list = []; attr_list = [] }) items
    id ←
        change_rows
          (dict_of (("table", str "RegisterList") ∷ ("data", list_of batch.reg_list) ∷ []))
          db_insert "Register DB error"
    forget_query id
    ret (
        dict_of (
          ("error:", number 0)
          ∷ ("registerID", register_id)
          ∷ ("idList", list_of batch.id_list)
          ∷ ("relay", relay)
          ∷ []))

  unfoldable pub register : String → Value → Proc Unit
  unfolding answer
  register temp_id payload = do
    relay ← lift (get payload "relay")
    register_id ← lift (get payload "registerID")
    answer ("/configuration/register_ack/" <> temp_id)
        (register_work temp_id payload relay register_id)
        (dict_of (("error", number 1) ∷ ("registerID", register_id) ∷ ("relay", relay) ∷ []))
