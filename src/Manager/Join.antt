-- ===== src/Manager/Join.antt =====
-- `join`: a device, its interfaces and its neighbors are stored under a fresh ID.
pub mod Fails
pub mod Stored
pub mod Cached
pub mod Fresh
pub mod Whole
use versatile.Base.{String, ◌<>◌, true, List, [], ◌∷◌, if◌then◌else◌}
use versatile.Py.Value.{failure, Value, str, list_of, number, is_none, is_text, get, iterate}
use versatile.Py.Exec.{pure, raise, lift, traverse, ◌>>=◌, ◌>>◌}
use versatile.World.{World}
use versatile.Manager.{Act, dict_of}
use versatile.Manager.Database.{db_insert, db_proc}
use versatile.Manager.GenId.{join_gen_id}
use versatile.Manager.Device.{device_of, or_null, or_null_text, is_missing, require_zero, answer}

module _ (W : World) where
  -- One interface. A missing hardware address overwrites the interface's type.
  unfoldable pub device_row : String → Value → Value → Value → Act W Value
  device_row device_id relay pub_key code = do
    iface_type ← lift (get code "ifaceType")
    hw_address ← lift (get code "hwAddress")
    ipv4 ← lift (get code "ipv4")
    wifi_ssid ← lift (get code "wifiSSID")
    let iface_type = or_null iface_type
    let iface_type = if is_none hw_address then str "NULL" else iface_type
    pure (
        dict_of (
          ("deviceId", str device_id)
          ∷ ("relay", relay)
          ∷ ("pubKey", pub_key)
          ∷ ("ifaceType", iface_type)
          ∷ ("hwAddress", hw_address)
          ∷ ("ipv4", or_null ipv4)
          ∷ ("wifiSSID", or_null wifi_ssid)
          ∷ []))

  unfoldable pub neighbor_row : String → Value → Act W Value
  neighbor_row device_id neighbor = do
    iface ← lift (get neighbor "neighborIface")
    ipv4 ← lift (get neighbor "neighborIpv4")
    hw_address ← lift (get neighbor "neighborHwAddress")
    flex_id ← lift (get neighbor "neighborFlexID")
    if is_missing flex_id
        then raise (failure "Neighbor FlexID error")
        else pure (
            dict_of (
              ("neighborIface", or_null_text iface)
              ∷ ("neighborIpv4", or_null_text ipv4)
              ∷ ("neighborHwAddress", or_null_text hw_address)
              ∷ ("neighborId", flex_id)
              ∷ ("deviceId", str device_id)
              ∷ []))

  -- An INSERT of the rows, with the test of its result.
  unfoldable pub join_insert : String → List Value → Act W Unit
  unfolding require_zero
  join_insert table rows = do
    db_payload ← db_proc W db_insert (dict_of (("table", str table) ∷ ("data", list_of rows) ∷ []))
    db_error ← lift (get db_payload "error")
    require_zero W db_error "Join DB error"

  -- Behind the choice of the ID.
  unfoldable pub join_rows : Value → Value → String → Act W Value
  unfolding device_row neighbor_row join_insert
  join_rows payload relay device_id = do
    pub_key ← lift (get payload "pubKey")
    neighbors ← lift (get payload "neighbors")
    let neighbors = or_null neighbors
    unique_codes ← lift (get payload "uniqueCodes")
    codes ← lift (iterate unique_codes)
    info_list ← traverse (device_row device_id relay pub_key) codes
    join_insert "Device" info_list
    neighbors ← lift (iterate neighbors)
    neighbor_list ← traverse (neighbor_row device_id) neighbors
    join_insert "Neighbor" neighbor_list
    pure (dict_of (("error:", number 0) ∷ ("id", str device_id) ∷ ("relay", relay) ∷ []))

  -- The body of the `try` up to the reply.
  unfoldable pub join_work : String → Value → Value → Act W Value
  unfolding device_of join_rows
  join_work temp_id payload relay = do
    device_id ← lift (device_of temp_id relay)
    device_id ← join_gen_id W W.call_depth device_id 0
    join_rows payload relay device_id

  unfoldable pub join : String → Value → Act W Unit
  join temp_id payload = do
    relay ← lift (get payload "relay")
    answer W ("/configuration/join_ack/" <> temp_id) (join_work temp_id payload relay)
        (dict_of (("error:", number 1) ∷ ("deviceID", str temp_id) ∷ ("relay", relay) ∷ []))
