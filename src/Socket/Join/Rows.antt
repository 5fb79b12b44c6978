-- ===== src/Socket/Join/Rows.antt =====
-- The rows that `Join` of the socketIO service inserts for neighbors and interfaces.
use versatile.Base.{
  String, ◌<>◌, ◌≡◌, refl, ap, inl, inr, Bool-cases, Option, none, some, List, ◌==◌, if◌then◌else◌,
}
use versatile.Base.Dict.{Dict}
use versatile.Py.Value.{ok, Value, str, dict, Fields, field_of, get, as_text}
use versatile.Manager.Device.{or_null, or_null_text}
use versatile.Resolver as Flask
use versatile.Resolver.{Server, Resolver}
use versatile.Resolver.Join.{device_insert}
use versatile.Resolver.Join.Stored.{Interface, IsInterface, optional}
use versatile.Socket.{Emission}
use versatile.Socket.Mirror.{Related, Same, Same-execute, Related-reads}
use versatile.Socket.Join.{ipv4_or_null, neighbor_insert, insert_neighbor, insert_interface}

-- A neighbor of a message.
pub record Neighbor : Type 0 where
  pub iface : Option String
  pub ip : Option String
  pub hardware : Option String

abbrev pub IsNeighbor : Value → Neighbor → Type 0
IsNeighbor v n =
    (fs : Fields) × (v ≡ dict fs)
    × (field_of "neighborIface" fs ≡ optional n.iface)
    × (field_of "neighborIpv4" fs ≡ optional n.ip)
    × (field_of "neighborHwAddress" fs ≡ optional n.hardware)

abbrev pub null_or : Option String → String
null_or none = "NULL"
null_or (some t) = t

-- Also for the text "none".
abbrev pub named_or_null : Option String → String
named_or_null none = "NULL"
named_or_null (some t) = if t == "none" then "NULL" else t

abbrev pub neighbor_text : String → Neighbor → String
neighbor_text id n =
    "INSERT into Neighbor (deviceID, neighborIface, neighborIpv4, neighborHwAddress) values ('"
    <> id
    <> "', '"
    <> named_or_null n.iface
    <> "', '"
    <> null_or n.ip
    <> "', '"
    <> named_or_null n.hardware
    <> "')"

abbrev pub interface_text : String → String → Interface → String
interface_text id relay i =
    "INSERT into Device (deviceID, interface, mac, ip, wifiSSID, relay) values ('"
    <> id
    <> "', '"
    <> null_or i.kind
    <> "', '"
    <> i.hardware
    <> "', '"
    <> null_or i.ip
    <> "', '"
    <> null_or i.ssid
    <> "', '"
    <> relay
    <> "')"

or_null_lem : (t : Option String) → as_text (or_null (optional t)) ≡ ok (null_or t)
unfolding as_text
or_null_lem none = refl
or_null_lem (some t) = refl

or_null_text_lem : (t : Option String) → as_text (or_null_text (optional t)) ≡ ok (named_or_null t)
unfolding as_text
or_null_text_lem none = refl
or_null_text_lem (some t) = elim (Bool-cases (t == "none")) [
  | inl h ↦ rw h refl
  | inr h ↦ rw h refl
]

ipv4_lem :
    (ip iface : Option String)
    → as_text (ipv4_or_null (optional ip) (or_null_text (optional iface))) ≡ ok (null_or ip)
unfolding as_text
ipv4_lem none iface = refl
ipv4_lem (some t) none = refl
ipv4_lem (some t) (some u) = elim (Bool-cases (u == "none")) [
  | inl h ↦ rw h refl
  | inr h ↦ rw (h, h) refl
]

module _ (V : Server) (session : Dict String) (emitted : List Emission) where
  pub insert_neighbor-Same :
      (id : String) (v : Value) (n : Neighbor)
      → IsNeighbor v n
      → Related V session emitted
          (Same V session emitted)
          (insert_neighbor V id v)
          (Flask.execute V (neighbor_text id n))
  unfolding insert_neighbor get neighbor_insert
  insert_neighbor-Same id v n (fs, is, iface, ip, hardware) =
      Related-reads V session emitted _ (optional n.iface) _ _ (rw is (ap ok iface)) (
        Related-reads V session emitted _ (optional n.ip) _ _ (rw is (ap ok ip)) (
          Related-reads V session emitted _ (optional n.hardware) _ _ (rw is (ap ok hardware)) (
            Related-reads V session emitted _ (named_or_null n.iface) _ _ (or_null_text_lem n.iface)
              (Related-reads V session emitted _ (null_or n.ip) _ _ (ipv4_lem n.ip n.iface) (
                Related-reads V session emitted _ (named_or_null n.hardware) _ _
                  (or_null_text_lem n.hardware) (Same-execute V session emitted _))))))

  pub insert_interface-Same :
      (id relay : String) (v : Value) (i : Interface)
      → IsInterface v i
      → Related V session emitted
          (Same V session emitted)
          (insert_interface V id relay v)
          (Flask.execute V (interface_text id relay i))
  unfolding insert_interface get device_insert as_text
  insert_interface-Same id relay v i (fs, is, kind, hardware, ip, ssid) =
      Related-reads V session emitted _ (optional i.kind) _ _ (rw is (ap ok kind)) (
        Related-reads V session emitted _ (str i.hardware) _ _ (rw is (ap ok hardware)) (
          Related-reads V session emitted _ (optional i.ip) _ _ (rw is (ap ok ip)) (
            Related-reads V session emitted _ (optional i.ssid) _ _ (rw is (ap ok ssid)) (
              Related-reads V session emitted _ (null_or i.kind) _ _ (or_null_lem i.kind) (
                Related-reads V session emitted _ i.hardware _ _ refl (
                  Related-reads V session emitted _ (null_or i.ip) _ _ (or_null_lem i.ip) (
                    Related-reads V session emitted _ (null_or i.ssid) _ _ (or_null_lem i.ssid)
                      (Same-execute V session emitted _))))))))
