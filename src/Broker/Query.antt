-- ===== src/Broker/Query.antt =====
-- `query` of the broker version. Its variable `queryID` holds the ID of the request first, and that
-- of a query to the database later; the replies have what it holds then. The device is not
-- printed here, so a part of the relay that is no text is a device too.
pub mod Replies
use versatile.Base.{String, ◌<>◌, ◌==◌, Bool, true, false, not, nat_eq, any, [], ◌∷◌, if◌then◌else◌}
use versatile.Base.Int.{pos, negsuc}
use versatile.Base.Dict.{contains, insert}
use versatile.Py.Value.{
  type_error, Result, ok, err, Value, null, bool, int, float, str, list, dict, list_of, number, get,
  iterate,
}
use versatile.Manager.{dict_of}
use versatile.Manager.Device.{device_of}
use versatile.Broker.Proc.{
  Proc, Globals, ret, read, write, publish, attempt, traverse, lift, ◌>>=◌, ◌>>◌,
}
use versatile.Broker.Database.{db_select, send_db_query, entry, forget_query, require_some}

-- Whether two keys that are no texts are the same: `True` is 1 and `False` is 0; a float is the same as
-- one of that `repr` only.
unfoldable pub same_key : Value → Value → Bool
same_key null null = true
same_key (bool true) (bool b) = b
same_key (bool false) (bool b) = not b
same_key (bool true) (int (pos n)) = nat_eq n 1
same_key (bool false) (int (pos n)) = nat_eq n 0
same_key (int (pos n)) (bool b) = nat_eq n (if b then 1 else 0)
same_key (int (pos m)) (int (pos n)) = nat_eq m n
same_key (int (negsuc m)) (int (negsuc n)) = nat_eq m n
same_key (float r) (float t) = r == t
same_key _ _ = false

-- `device in deviceID_cache`; a list or a dict is no key.
unfoldable pub in_cache : Value → Globals → Result Bool
unfolding same_key
in_cache (str id) s = ok (contains id s.device_cache)
in_cache (list vs) s = err type_error
in_cache (dict fs) s = err type_error
in_cache v s = ok (any (same_key v) s.other_devices)

-- `deviceID_cache[device] = True`
unfoldable pub cached : Value → Globals → Globals
cached (str id) s = record s { device_cache = insert id (bool true) s.device_cache }
cached v s = record s { other_devices = v ∷ s.other_devices }

-- `{'table':'Device', 'data':[{'deviceId':device}]}`
abbrev pub device_query : Value → Value
device_query device =
    dict_of
      (("table", str "Device") ∷ ("data", list_of (dict_of (("deviceId", device) ∷ []) ∷ [])) ∷ [])

abbrev pub query_topic : String → String
query_topic temp_id = "/utilization/reply/" <> temp_id

-- The reply of the handler of exceptions.
unfoldable pub refuse : String → Value → Value → Proc Unit
refuse temp_id relay query_id =
    publish (query_topic temp_id)
      (dict_of (("error", number 1) ∷ ("queryID", query_id) ∷ ("relay", relay) ∷ [])) (ret tt)

-- The fields of a requirement are read, and not used.
unfoldable pub read_requirement : Value → Proc Unit
read_requirement req = do
  metric_type ← lift (get req "metricType")
  metric_unit ← lift (get req "metricUnit")
  metric_value ← lift (get req "metricValue")
  metric_operator ← lift (get req "metricOperator")
  ret tt

-- The fields of the request; only `desc` is used.
unfoldable pub read_query : Value → Proc Value
unfolding read_requirement
read_query payload = do
  query_type ← lift (get payload "queryType")
  category ← lift (get payload "type")
  order ← lift (get payload "order")
  desc ← lift (get payload "desc")
  limit ← lift (get payload "limit")
  requirements ← lift (get payload "qosRequirements")
  additional_fields ← lift (get payload "additionalFields")
  reqs ← lift (iterate requirements)
  traverse read_requirement reqs
  ret desc

-- Behind the existence check; `query_id` is what `queryID` holds there.
unfoldable pub search_ids : String → Value → Value → Value → Value → Proc Unit
unfolding refuse read_query send_db_query entry forget_query
search_ids temp_id payload relay device query_id =
    attempt (read_query payload) (λ e. refuse temp_id relay query_id)
      λ desc.
        attempt (send_db_query (device_query device) db_select true)
          (λ e. refuse temp_id relay query_id)
          λ id.
            attempt (do db_payload ← entry id; lift (get db_payload "data"); forget_query id)
              (λ e. refuse temp_id relay (str id))
              λ done.
                publish (query_topic temp_id)
                  (dict_of (
                    ("error:", number 0)
                    ∷ ("queryID", str id)
                    ∷ ("desc", desc)
                    ∷ ("ids", list_of (str "TempId1" ∷ str "TempId2" ∷ []))
                    ∷ ("relay", relay)
                    ∷ []))
                  (ret tt)

-- The existence check for a device that is not cached.
unfoldable pub check_device : String → Value → Proc Unit
unfolding entry forget_query require_some cached
check_device id device = do
  db_payload ← entry id
  exist ← lift (get db_payload "data")
  forget_query id
  require_some exist "No Device Error"
  write (cached device) (ret tt)

-- The device of the request, and whether it is cached.
unfoldable pub find_device : String → Value → Proc (Value × Bool)
unfolding device_of in_cache
find_device temp_id relay = do
  device ← lift (device_of temp_id relay)
  known ← read (λ s. lift (in_cache device s))
  ret (device, known)

unfoldable pub query : String → Value → Proc Unit
unfolding find_device search_ids check_device
query temp_id payload = do
  query_id ← lift (get payload "queryID")
  relay ← lift (get payload "relay")
  attempt (find_device temp_id relay) (λ e. refuse temp_id relay query_id)
      λ (device, known).
        if known
        then search_ids temp_id payload relay device query_id
        else attempt (send_db_query (device_query device) db_select true)
            (λ e. refuse temp_id relay query_id)
            λ id.
              attempt (check_device id device) (λ e. refuse temp_id relay (str id))
                λ known. search_ids temp_id payload relay device (str id)
