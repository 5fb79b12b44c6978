-- ===== src/Broker/Join.antt =====
-- `join` of the broker version. The fields of an interface and of a neighbor are printed, so they
-- are texts; the entries of its two inserts stay in `dbQuery_cache`.
use versatile.Base.{ℕ, String, ◌<>◌, List, [], ◌∷◌, if◌then◌else◌}
use versatile.Py.Value.{failure, Value, str, list_of, number, is_none, get, iterate, as_text}
use versatile.Manager.{dict_of}
use versatile.Manager.Device.{or_null, or_null_text, is_missing}
use versatile.Broker.Proc.{Proc, ret, fail, traverse, lift, ◌>>=◌, ◌>>◌}
use versatile.Broker.Database.{db_insert, change_rows}
use versatile.Broker.GenId.{join_gen_id}
use versatile.Broker.Device.{sender, answer}

-- One interface. A missing hardware address overwrites the interface's type, and then raises.
unfoldable pub device_row : String → Value → Value → Value → Proc Value
device_row device_id relay pub_key code = do
  iface_type ← lift (get code "ifaceType")
  hw_address ← lift (get code "hwAddress")
  ipv4 ← lift (get code "ipv4")
  wifi_ssid ← lift (get code "wifiSSID")
  let iface_type = or_null iface_type
  let iface_type = if is_none hw_address then str "NULL" else iface_type
  iface_type ← lift (as_text iface_type)
  hw_address ← lift (as_text hw_address)
  ipv4 ← lift (as_text (or_null ipv4))
  wifi_ssid ← lift (as_text (or_null wifi_ssid))
  ret (
      dict_of (
        ("deviceId", str device_id)
        ∷ ("relay", relay)
        ∷ ("pubKey", pub_key)
        ∷ ("ifaceType", str iface_type)
        ∷ ("hwAddress", str hw_address)
        ∷ ("ipv4", str ipv4)
        ∷ ("wifiSSID", str wifi_ssid)
        ∷ []))

unfoldable pub neighbor_row : String → Value → Proc Value
neighbor_row device_id neighbor = do
  iface ← lift (get neighbor "neighborIface")
  ipv4 ← lift (get neighbor "neighborIpv4")
  hw_address ← lift (get neighbor "neighborHwAddress")
  flex_id ← lift (get neighbor "neighborFlexID")
  if is_missing flex_id then fail (failure "Neighbor FlexID error") else do
    iface ← lift (as_text (or_null_text iface))
    ipv4 ← lift (as_text (or_null_text ipv4))
    hw_address ← lift (as_text (or_null_text hw_address))
    flex_id ← lift (as_text flex_id)
    ret (
        dict_of (
          ("neighborIface", str iface)
          ∷ ("neighborIpv4", str ipv4)
          ∷ ("neighborHwAddress", str hw_address)
          ∷ ("neighborId", str flex_id)
          ∷ ("deviceId", str device_id)
          ∷ []))

-- An insert of the rows, with the test of its result.
unfoldable pub join_insert : String → List Value → Proc Unit
unfolding change_rows
join_insert table rows = do
  change_rows (dict_of (("table", str table) ∷ ("data", list_of rows) ∷ [])) db_insert
      "Join DB error"
  ret tt

-- Behind the choice of the ID.
unfoldable pub join_rows : Value → Value → String → Proc Value
unfolding device_row neighbor_row join_insert
join_rows payload relay device_id = do
  pub_key ← lift (get payload "pubKey")
  neighbors ← lift (get payload "neighbors")
  let neighbors = or_null neighbors
  unique_codes ← lift (get payload "uniqueCodes")
  codes ← lift (iterate unique_codes)
  info_list ← traverse (device_row device_id relay pub_key) codes
  join_insert "Device" info_list
  neighbors ← lift (iterate neighbors)
  neighbor_list ← traverse (neighbor_row device_id) neighbors
  join_insert "Neighbor" neighbor_list
  ret (dict_of (("error:", number 0) ∷ ("id", str device_id) ∷ ("relay", relay) ∷ []))

-- `call_depth` is how many calls of one function may be open.
module _ (call_depth : ℕ) where
  unfoldable pub join_work : String → Value → Value → Proc Value
  unfolding sender join_gen_id join_rows
  join_work temp_id payload relay = do
    device ← sender temp_id relay
    device_id ← join_gen_id call_depth device 0
    join_rows payload relay device_id

  unfoldable pub join : String → Value → Proc Unit
  unfolding answer
  join temp_id payload = do
    relay ← lift (get payload "relay")
    answer ("/configuration/join_ack/" <> temp_id) (join_work temp_id payload relay)
        (dict_of (("error:", number 1) ∷ ("deviceID", str temp_id) ∷ ("relay", relay) ∷ []))
