-- ===== src/Resolver/Join.antt =====
-- `Join` of the Flask service: the device gets the number after the largest one.
pub mod Identity
pub mod Stored
use versatile.Base.{
  ℕ, suc, ◌+◌, String, ◌<>◌, Bool, Option, none, some, List, [], ◌∷◌, if◌then◌else◌,
}
use versatile.Base.Int.{ℤ, pos, negsuc}
use versatile.Py.Value.{
  Error, name_error, Result, ok, err, Value, int, str, number, is_none, get, iterate, as_text,
}
use versatile.Py.Text.{repr_int}
use versatile.Py.Text.Number.{to_int}
use versatile.Py.Exec.{pure, raise, lift, traverse, try_except, ◌>>=◌, ◌>>◌}
use versatile.Manager.{dict_of}
use versatile.Resolver.{Server, Act, Reply, json, connect, execute, commit, only_cell}

-- z + 1
abbrev pub next_int : ℤ → ℤ
next_int (pos n) = pos (n + 1)
next_int (negsuc ℕ.zero) = pos 0
next_int (negsuc (ℕ.suc n)) = negsuc n

-- `if v is None: v = "."`
abbrev pub or_dot : Value → Value
or_dot v = if is_none v then str "." else v

unfoldable pub device_insert : String → String → String → String → String → String → String
device_insert device_id iface_type hw_address ipv4 wifi_ssid relay =
    "INSERT into Device (deviceID, interface, mac, ip, wifiSSID, relay) values ('" <> device_id
    <> "', '" <> iface_type <> "', '" <> hw_address <> "', '" <> ipv4 <> "', '" <> wifi_ssid
    <> "', '" <> relay <> "')"

abbrev shown : (ℤ → ℤ) → Result ℤ → Result String
shown f (ok z) = ok (repr_int (f z))
shown f (err e) = err e

-- `str(int(maxID) + 1)`, or "1" for the first
unfoldable pub next_id : Value → Result String
next_id max_id = if is_none max_id then ok "1" else shown next_int (to_int max_id)

-- `relay` as the text that is stored: "none", or the decimal text of its number
unfoldable pub relay_text : Value → Result String
relay_text relay = if is_none relay then ok "none" else shown (λ z. z) (to_int relay)

module _ (V : Server) where
  -- Up to the choice of the ID.
  unfoldable pub new_device_id : Act V String
  new_device_id = do
    connect V
    rows ← execute V "SELECT MAX(CAST(deviceID as  SIGNED)) From Device"
    max_id ← only_cell V rows
    lift (next_id max_id)

  -- One round over `uniqueCodes`.
  unfoldable pub insert_interface : String → String → Value → Act V (List Value)
  unfolding device_insert
  insert_interface device_id relay code = do
    iface_type ← lift (get code "ifaceType")
    hw_address ← lift (get code "hwAddress")
    ipv4 ← lift (get code "ipv4")
    wifi_ssid ← lift (get code "wifiSSID")
    let iface_type = or_dot iface_type
    let iface_type = if is_none hw_address then str "." else iface_type
    iface_type ← lift (as_text iface_type)
    hw_address ← lift (as_text hw_address)
    ipv4 ← lift (as_text (or_dot ipv4))
    wifi_ssid ← lift (as_text (or_dot wifi_ssid))
    execute V (device_insert device_id iface_type hw_address ipv4 wifi_ssid relay)

  unfoldable pub insert_interfaces : Value → String → Act V Unit
  unfolding insert_interface relay_text
  insert_interfaces json_dict device_id = do
    relay ← lift (get json_dict "relay")
    relay ← lift (relay_text relay)
    unique_codes ← lift (get json_dict "uniqueCodes")
    codes ← lift (iterate unique_codes)
    traverse (insert_interface device_id relay) codes
    commit V

  abbrev pub id_reply : ℕ → String → Reply
  id_reply error device_id = json (dict_of (("error", number error) ∷ ("id", str device_id) ∷ []))

  -- The handler of exceptions names `deviceID`, which is not bound before the ID is chosen.
  unfoldable pub join : Value → Act V Reply
  join json_dict = do
    device_id ← try_except (new_device_id) (λ e. raise name_error)
    try_except (do insert_interfaces json_dict device_id; pure (id_reply 0 device_id))
        (λ e. pure (id_reply 1 device_id))
