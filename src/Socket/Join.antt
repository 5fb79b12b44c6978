-- ===== src/Socket/Join.antt =====
-- `Join` of the socketIO service.
pub mod Rows
pub mod Stored
use versatile.Base.{ℕ, String, ◌<>◌, ◌||◌, ◌&&◌, List, [], ◌∷◌, if◌then◌else◌}
use versatile.Base.Dict.{contains, insert}
use versatile.Py.Value.{
  Result, ok, err, Value, str, number, is_none, is_text, get, iterate, as_text,
}
use versatile.Py.Exec.{pure, lift, gets, modify, traverse, try_except, ◌>>=◌, ◌>>◌}
use versatile.Manager.{dict_of}
use versatile.Manager.Device.{or_null, or_null_text}
use versatile.Resolver.{Server}
use versatile.Resolver.Join.{device_insert, next_id, relay_text}
use versatile.Socket.{Act, connect, execute, commit, only_cell, emit}

-- `relay` as the text that is stored
abbrev pub relay_or_none : Value → Result String
relay_or_none relay = if is_text relay "none" then ok "none" else relay_text relay

-- The test of `neighborIpv4` reads `neighborIface` in its second half.
abbrev pub ipv4_or_null : Value → Value → Value
ipv4_or_null ipv4 iface = if is_none ipv4 || is_text iface "none" then str "NULL" else ipv4

unfoldable pub neighbor_insert : String → String → String → String → String
neighbor_insert device_id iface ipv4 hw_address =
    "INSERT into Neighbor (deviceID, neighborIface, neighborIpv4, neighborHwAddress) values ('"
    <> device_id <> "', '" <> iface <> "', '" <> ipv4 <> "', '" <> hw_address <> "')"

abbrev pub join_message : ℕ → String → Value
join_message error device_id = dict_of (("error", number error) ∷ ("id", str device_id) ∷ [])

module _ (V : Server) where
  -- Up to the choice of the ID.
  unfoldable pub new_device_id : Act V String
  new_device_id = do
    connect V
    rows ← execute V "SELECT MAX(CAST(deviceID as  SIGNED)) From Device"
    max_id ← only_cell V rows
    lift (next_id max_id)

  -- The session of the client is kept if it has both keys; nothing sets 'user-id'. `token` is what
  -- `os.urandom` gives.
  unfoldable pub start_session : String → String → Act V Unit
  start_session token device_id = do
    session ← gets (λ s. s.session)
    if contains "session" session && contains "user-id" session
        then pure tt
        else modify (λ s. record s {
          session = insert "username" device_id (insert "session" token s.session);
        })

  -- One round over `neighbors`. Its prints raise if a field is no text.
  unfoldable pub insert_neighbor : String → Value → Act V (List Value)
  unfolding neighbor_insert
  insert_neighbor device_id neighbor = do
    iface ← lift (get neighbor "neighborIface")
    ipv4 ← lift (get neighbor "neighborIpv4")
    hw_address ← lift (get neighbor "neighborHwAddress")
    let iface = or_null_text iface
    let ipv4 = ipv4_or_null ipv4 iface
    let hw_address = or_null_text hw_address
    iface ← lift (as_text iface)
    ipv4 ← lift (as_text ipv4)
    hw_address ← lift (as_text hw_address)
    execute V (neighbor_insert device_id iface ipv4 hw_address)

  -- One round over `uniqueCodes`.
  unfoldable pub insert_interface : String → String → Value → Act V (List Value)
  unfolding device_insert
  insert_interface device_id relay code = do
    iface_type ← lift (get code "ifaceType")
    hw_address ← lift (get code "hwAddress")
    ipv4 ← lift (get code "ipv4")
    wifi_ssid ← lift (get code "wifiSSID")
    let iface_type = or_null iface_type
    let iface_type = if is_none hw_address then str "NULL" else iface_type
    iface_type ← lift (as_text iface_type)
    hw_address ← lift (as_text hw_address)
    ipv4 ← lift (as_text (or_null ipv4))
    wifi_ssid ← lift (as_text (or_null wifi_ssid))
    execute V (device_insert device_id iface_type hw_address ipv4 wifi_ssid relay)

  -- Behind the choice of the ID, up to the answer.
  unfoldable pub join_work : String → Value → String → Act V Unit
  unfolding start_session insert_neighbor insert_interface
  join_work token content device_id = do
    start_session token device_id
    relay ← lift (get content "relay")
    relay ← lift (relay_or_none relay)
    neighbors ← lift (get content "neighbors")
    neighbors ← lift (iterate (or_null neighbors))
    traverse (insert_neighbor device_id) neighbors
    unique_codes ← lift (get content "uniqueCodes")
    codes ← lift (iterate unique_codes)
    traverse (insert_interface device_id relay) codes
    commit V

  -- The answer to an exception has the ID that is chosen by then, "-1" before.
  abbrev pub join_with : String → Value → Result String → Act V Unit
  join_with token content (ok device_id) =
      try_except (do join_work token content device_id; emit V "Jack" (join_message 0 device_id))
        (λ e. emit V "Jack" (join_message 1 device_id))
  join_with token content (err e) = emit V "Jack" (join_message 1 "-1")

  unfoldable pub join : String → Value → Act V Unit
  join token content s = let (r, s') = new_device_id s in join_with token content r s'
