-- ===== src/Manager/Query.antt =====
-- `query`: the IDs of services and contents of a category. The pauses of `time.sleep` change
-- nothing and are left out.
pub mod Replies
use versatile.Base.{String, ◌<>◌, [], ◌∷◌}
use versatile.Py.Value.{Value, str, list_of, number, get, iterate, as_text}
use versatile.Py.Exec.{pure, lift, traverse, ◌>>=◌, ◌>>◌}
use versatile.World.{World}
use versatile.Manager.{Act, dict_of}
use versatile.Manager.Database.{db_select, db_proc}
use versatile.Manager.Device.{device_of, require_device, answer}

module _ (W : World) where
  -- The four fields of a requirement are read, and not used.
  unfoldable pub read_requirement : Value → Act W Unit
  read_requirement req = do
    attribute_type ← lift (get req "attributeType")
    unit ← lift (get req "unit")
    value ← lift (get req "value")
    operator ← lift (get req "operator")
    pure tt

  unfoldable pub query_work : String → Value → Value → Value → Act W Value
  unfolding device_of require_device read_requirement
  query_work temp_id payload relay query_id = do
    device_id ← lift (device_of temp_id relay)
    device ← lift (as_text device_id)
    require_device W device
    query_type ← lift (get payload "queryType")
    category ← lift (get payload "category")
    order ← lift (get payload "order")
    desc ← lift (get payload "desc")
    limit ← lift (get payload "limit")
    requirements ← lift (get payload "requirements")
    additional_fields ← lift (get payload "additionalFields")
    reqs ← lift (iterate requirements)
    traverse read_requirement reqs
    type_text ← lift (as_text query_type)
    db_payload ← db_proc W db_select (
        dict_of (
          ("table", str "RegisterList")
          ∷ (
            "data",
            list_of (
                dict_of (
                  ("queryType", query_type)
                  ∷ ("category", category)
                  ∷ ("requirements", requirements)
                  ∷ [])
                ∷ []),
          )
          ∷ []))
    ids ← lift (get db_payload "data")
    pure (
        dict_of (
          ("error:", number 0)
          ∷ ("queryID", query_id)
          ∷ ("desc", desc)
          ∷ ("ids", ids)
          ∷ ("relay", relay)
          ∷ []))

  unfoldable pub query : String → Value → Act W Unit
  query temp_id payload = do
    query_id ← lift (get payload "queryID")
    relay ← lift (get payload "relay")
    answer W ("/utilization/reply/" <> temp_id) (query_work temp_id payload relay query_id)
        (dict_of (("error", number 1) ∷ ("queryID", query_id) ∷ ("relay", relay) ∷ []))
