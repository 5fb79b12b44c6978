-- ===== src/Manager/Register/Stored.antt =====
-- What a registration stores, and what it answers.
use versatile.Base.{
  String, ◌<>◌, ◌≡◌, refl, ap, ◌∙◌, true, false, List, [], ◌∷◌, ◌++◌, Bool, map, inl, inr,
}
use versatile.Base.Decimal.{decimal}
use versatile.Py.Value.{
  to_list-of_list, Result-cases, ok, Value, str, dict, list_of, Fields, number, truthy, get,
  iterate, field_of, as_text,
}
use versatile.Py.Exec.{pure, lift, traverse, ◌>>=◌, ◌>>◌}
use versatile.World.{World}
use versatile.Manager.{Manager, Act, dict_of, fields, execute, commit}
use versatile.Manager.Database.{db_insert, send_db_query}
use versatile.Manager.Database.Statements.{insert_statements, db_proc-insert}
use versatile.Manager.GenId.Flag.{flag_of, gen_flag_lem}
use versatile.Manager.Device.{device_of, require_zero}
use versatile.Manager.Device.Known.{known_device, same_after, require_device_lem}
use versatile.Manager.Database.Lookup.{IsLookup, IsPlain}
use versatile.Manager.Answers.{outcome, answer_lem}
use versatile.Manager.Join.Stored.{stores}
use versatile.Manager.Register.{put_attributes, item_id, register_item, register_work, register}

-- An item that does not ask for a search of its ID.
pub record Item : Type 0 where
  pub item : Fields
  pub index : String
  pub hash : String
  pub attributes : List Value
  pub its_index : field_of "index" item ≡ str index
  pub its_hash : field_of "hash" item ≡ str hash
  pub its_attributes : field_of "attributes" item ≡ list_of attributes
  pub no_search : truthy (field_of "collisionAvoid" item) ≡ false

-- Its ID: the flag byte in decimal, and the hash.
abbrev pub given_id : Item → String
given_id i =
    decimal (flag_of (truthy (field_of "cache" i.item)) (truthy (field_of "segment" i.item)) 0)
    <> i.hash

-- Its entry of the reply.
abbrev pub reply_entry : Item → Value
reply_entry i = dict_of ((i.index, str (given_id i)) ∷ [])

-- Its row of the table.
abbrev pub item_row : String → Item → Value
item_row device i = dict (
    put_attributes 0 i.attributes (
      fields (
        ("deviceId", str device)
        ∷ ("providingId", str (given_id i))
        ∷ ("hash", str i.hash)
        ∷ ("registerType", field_of "registerType" i.item)
        ∷ ("category", field_of "category" i.item)
        ∷ [])))

abbrev pub item_dicts : List Item → List Value
item_dicts is = map (λ i. dict i.item) is

abbrev pub refusal : Value → Value → Value
refusal register_id relay =
    dict_of (("error", number 1) ∷ ("registerID", register_id) ∷ ("relay", relay) ∷ [])

abbrev pub register_reply : Value → Value → List Value → Value
register_reply register_id relay entries = dict_of (
    ("error:", number 0)
    ∷ ("registerID", register_id)
    ∷ ("idList", list_of entries)
    ∷ ("relay", relay)
    ∷ [])

module _ (W : World) where
  item_registered :
      (device : String) (i : Item) (s : Manager W.State)
      → register_item W device (dict i.item) s ≡ (ok (reply_entry i, item_row device i), s)
  unfolding register_item item_id get iterate as_text ◌>>=◌
  item_registered device i s =
      rw
        (
          i.its_attributes,
          i.its_hash,
          i.its_index,
          to_list-of_list i.attributes,
          gen_flag_lem (field_of "cache" i.item) (field_of "segment" i.item) 0,
          i.no_search,
        )
        refl

  items_registered :
      (device : String) (is : List Item) (s : Manager W.State)
      → traverse (register_item W device) (item_dicts is) s
        ≡ (ok (map (λ i. (reply_entry i, item_row device i)) is), s)
  unfolding traverse ◌>>=◌
  items_registered device [] s = refl
  items_registered device (i ∷ is) s =
      rw (item_registered device i s, items_registered device is s) refl

  map_entries :
      (device : String) (is : List Item)
      → map (λ (pair : Value × Value). pair.0) (map (λ i. (reply_entry i, item_row device i)) is)
        ≡ map reply_entry is
  map_entries device [] = refl
  map_entries device (i ∷ is) = rw (map_entries device is) refl

  map_rows :
      (device : String) (is : List Item)
      → map (λ (pair : Value × Value). pair.1) (map (λ i. (reply_entry i, item_row device i)) is)
        ≡ map (item_row device) is
  map_rows device [] = refl
  map_rows device (i ∷ is) = rw (map_rows device is) refl

  abbrev insert_and_reply : Value → Value → List Value → List Value → Act W Value
  insert_and_reply register_id relay entries rows = do
    db_payload ←
        send_db_query W (dict_of (("table", str "RegisterList") ∷ ("data", list_of rows) ∷ []))
          db_insert true
    db_error ← lift (get db_payload "error")
    require_zero W db_error "Register DB error"
    pure (register_reply register_id relay entries)

  insert_and_reply-eq :
      (register_id relay : Value) (entries rows : List Value) (queries : List String)
      (s : Manager W.State)
      → insert_statements W "RegisterList" rows ≡ ok queries
      → insert_and_reply register_id relay entries rows s
        ≡ (stores W queries >> pure (register_reply register_id relay entries)) s
  unfolding send_db_query require_zero get ◌>>=◌
  insert_and_reply-eq register_id relay entries rows queries s h =
      let s1 = (traverse (execute W) queries s).1 in
      rw (db_proc-insert W "RegisterList" rows queries s h)
        (elim (Result-cases (traverse (execute W) queries s).0) [
          | inl (e, ran) ↦ rw ran refl
          | inr (out, ran) ↦ elim (Result-cases (commit W s1).0) [
            | inl (e, done) ↦ rw (ran, done) refl
            | inr (u, done) ↦ rw (ran, done) refl
          ]
        ])

  module _ {stored : W.State → String → Bool} (look : IsLookup W "Device" "deviceId" stored) where
    register_work_lem :
        (temp_id device : String) (fs : Fields) (relay register_id : Value) (is : List Item)
        (queries : List String) (s : Manager W.State)
        → device_of temp_id relay ≡ ok (str device)
        → IsPlain device
        → field_of "registerList" fs ≡ list_of (item_dicts is)
        → insert_statements W "RegisterList" (map (item_row device) is) ≡ ok queries
        → register_work W temp_id (dict fs) relay register_id s
          ≡ (known_device W look device
                >> (stores W queries
                    >> pure (register_reply register_id relay (map reply_entry is))))
              s
    unfolding register_work get iterate as_text ◌>>=◌
    register_work_lem temp_id device fs relay register_id is queries s from plain listed h =
        let pairs : List (Value × Value) = map (λ i. (reply_entry i, item_row device i)) is in
        rw (from, require_device_lem W look device s plain)
          (same_after W look
            (λ u s1.
              rw (listed, to_list-of_list (item_dicts is), items_registered device is s1)
                (ap
                    (λ entries.
                      insert_and_reply register_id relay entries
                        (map (λ (pair : Value × Value). pair.1) pairs) s1)
                    (map_entries device is)
                  ∙ ap (λ rows. insert_and_reply register_id relay (map reply_entry is) rows s1)
                      (map_rows device is)
                  ∙ insert_and_reply-eq register_id relay (map reply_entry is)
                      (map (item_row device) is) queries s1 h))
            (known_device W look device s))

    -- A registration from a device with a plain ID, of a list of items that do not ask for a search
    -- of their ID and whose rows have statements, makes the check of the device; if it passes, it
    -- runs those statements, in the order of the items, and commits once; and it publishes one
    -- reply, with error 0 and the IDs of the items in their order, or with error 1 if the check
    -- fails or a statement or the commit raises, which ends it.
    pub register-stores :
        (temp_id device : String) (fs : Fields) (is : List Item) (queries : List String)
        (s : Manager W.State)
        → device_of temp_id (field_of "relay" fs) ≡ ok (str device)
        → IsPlain device
        → field_of "registerList" fs ≡ list_of (item_dicts is)
        → insert_statements W "RegisterList" (map (item_row device) is) ≡ ok queries
        → let register_id = field_of "registerID" fs in
          let relay = field_of "relay" fs in
          let (r, s') =
            (known_device W look device
                >> (stores W queries
                    >> pure (register_reply register_id relay (map reply_entry is))))
              s in
          register W temp_id (dict fs) s ≡ (
            ok tt,
            record s' {
              published =
                  s'.published
                  ++ (
                    "/configuration/register_ack/" <> temp_id,
                    outcome r (refusal register_id relay),
                  )
                    ∷ [];
            },
          )
    unfolding register get ◌>>=◌
    register-stores temp_id device fs is queries s from plain listed h =
        answer_lem W _ _ _ s
        ∙ rw
            (register_work_lem temp_id device fs (field_of "relay" fs) (field_of "registerID" fs) is
              queries s from plain listed h)
            refl
