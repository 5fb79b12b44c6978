-- ===== src/Broker/Register/Sent.antt =====
-- What a registration of the broker version sends to the database, and what it answers.
use mathlib.Core.List.{append_assoc, append-nil}
use versatile.Base.{ℕ, String, ◌≡◌, refl, ◌∙◌, List, [], ◌∷◌, ◌++◌, map, length, take}
use versatile.Py.Value.{
  ok, Value, str, dict, list_of, Fields, number, truthy, get, iterate, field_of, as_text,
  to_list-of_list,
}
use versatile.Manager.{dict_of, fields}
use versatile.Manager.GenId.Flag.{flag_of, gen_flag_lem}
use versatile.Manager.Device.{device_of}
use versatile.Manager.Register.{put_attributes}
use versatile.Manager.Register.Stored.{Item, item_dicts}
use versatile.Broker.Proc.{Proc, ret, ◌>>=◌, ◌>>◌}
use versatile.Broker.Database.{db_insert, change_rows, forget_query}
use versatile.Broker.GenId.{flagged}
use versatile.Broker.Device.{sender, require_device}
use versatile.Broker.Register.{Batch, item_id, register_item, register_items, register_work}

-- The ID of an item that does not ask for a search: the hash, and the flag byte in decimal.
abbrev pub plain_id : Item → String
plain_id i =
    flagged i.hash
      (flag_of (truthy (field_of "cache" i.item)) (truthy (field_of "segment" i.item)) 0)

abbrev pub id_entry : Item → Value
id_entry i = dict_of ((i.index, str (plain_id i)) ∷ [])

-- The row of an item. It has as many attributes as the item, but from the front of a list that
-- starts with the attributes of the items before it.
abbrev pub sent_row : String → List Value → Item → Value
sent_row device before i = dict (
    put_attributes 0 (take (length i.attributes) (before ++ i.attributes)) (
      fields (
        ("deviceId", str device)
        ∷ ("providingId", str (plain_id i))
        ∷ ("hash", str i.hash)
        ∷ ("registerType", field_of "registerType" i.item)
        ∷ ("category", field_of "category" i.item)
        ∷ [])))

abbrev pub sent_rows : String → List Value → List Item → List Value
sent_rows device before [] = []
sent_rows device before (i ∷ is) =
    sent_row device before i ∷ sent_rows device (before ++ i.attributes) is

abbrev all_attributes : List Item → List Value
all_attributes [] = []
all_attributes (i ∷ is) = i.attributes ++ all_attributes is

module _ (call_depth : ℕ) where
  item_sent :
      (device : String) (b : Batch) (i : Item)
      → register_item call_depth device b (dict i.item)
        ≡ ret (record {
          id_list = b.id_list ++ id_entry i ∷ [];
          reg_list = b.reg_list ++ sent_row device b.attr_list i ∷ [];
          attr_list = b.attr_list ++ i.attributes;
        })
  unfolding register_item item_id get iterate as_text ◌>>=◌
  item_sent device b i =
      rw
        (
          i.its_attributes,
          i.its_hash,
          i.its_index,
          to_list-of_list i.attributes,
          gen_flag_lem (field_of "cache" i.item) (field_of "segment" i.item) 0,
          i.no_search,
        )
        refl

  items_sent :
      (device : String) (is : List Item) (b : Batch)
      → register_items call_depth device b (item_dicts is)
        ≡ ret (record {
          id_list = b.id_list ++ map id_entry is;
          reg_list = b.reg_list ++ sent_rows device b.attr_list is;
          attr_list = b.attr_list ++ all_attributes is;
        })
  unfolding register_items ◌>>=◌
  items_sent device [] b =
      rw (append-nil b.id_list, append-nil b.reg_list, append-nil b.attr_list) refl
  items_sent device (i ∷ is) b = rw (item_sent device b i) (
      items_sent device is _
      ∙ rw
          (
            append_assoc b.id_list (id_entry i ∷ []) (map id_entry is),
            append_assoc b.reg_list (sent_row device b.attr_list i ∷ [])
                (sent_rows device (b.attr_list ++ i.attributes) is),
            append_assoc b.attr_list i.attributes (all_attributes is),
          )
          refl)

  abbrev pub send_and_reply : Value → Value → List Value → List Value → Proc Value
  send_and_reply register_id relay entries rows = do
    id ←
        change_rows (dict_of (("table", str "RegisterList") ∷ ("data", list_of rows) ∷ []))
          db_insert "Register DB error"
    forget_query id
    ret (
        dict_of (
          ("error:", number 0)
          ∷ ("registerID", register_id)
          ∷ ("idList", list_of entries)
          ∷ ("relay", relay)
          ∷ []))

  -- A registration of items that do not ask for a search of their ID checks the device, and then sends
  -- one insert with a row for each item, in order, and replies with their IDs. A row has as many
  -- attributes as its item, but taken from the front of the attributes of all items up to this one.
  pub register_sends :
      (temp_id device : String) (fs : Fields) (relay register_id : Value) (is : List Item)
      → device_of temp_id relay ≡ ok (str device)
      → field_of "registerList" fs ≡ list_of (item_dicts is)
      → register_work call_depth temp_id (dict fs) relay register_id ≡ (
          require_device device
          >> send_and_reply register_id relay (map id_entry is) (sent_rows device [] is))
  unfolding register_work sender get iterate as_text ◌>>=◌
  register_sends temp_id device fs relay register_id is from listed =
      rw
        (
          from,
          listed,
          to_list-of_list (item_dicts is),
          items_sent device is (record { id_list = []; reg_list = []; attr_list = [] }),
        )
        refl
