-- ===== src/Resolver/Join/Stored.antt =====
-- What `Join` of the Flask service writes for the interfaces of a device.
use mathlib.Core.List.{Forall₂}
use versatile.Base.{
  ℕ, String, ◌<>◌, ◌≡◌, refl, ap, true, Option, none, some, List, [], ◌∷◌, ◌++◌, map, if◌then◌else◌,
}
use versatile.Py.Value.{
  ok, Value, null, str, dict, list_of, Fields, field_of, get, as_text, iterate, first,
  to_list-of_list,
}
use versatile.Py.Exec.{pure, traverse, try_except, ◌>>=◌, ◌>>◌}
use versatile.Resolver.{Server, Resolver, connect, execute, commit, only_cell}
use versatile.Resolver.Join.{
  or_dot, device_insert, next_id, relay_text, new_device_id, insert_interface, insert_interfaces,
  id_reply, join,
}
use versatile.Resolver.Join.Identity.{largest_id_query}
use versatile.Resolver.Steps.{
  Step, perform, Runs, Runs-lifts, Runs-bind, Runs-execute, Runs-keep, Runs-commit, Runs-reply,
  Anything,
}
use versatile.Resolver.Steps.Loops.{Runs-each}

-- An interface of a message.
pub record Interface : Type 0 where
  pub kind : Option String
  pub hardware : String
  pub ip : Option String
  pub ssid : Option String

abbrev pub optional : Option String → Value
optional none = null
optional (some t) = str t

abbrev pub dot_or : Option String → String
dot_or none = "."
dot_or (some t) = t

abbrev pub IsInterface : Value → Interface → Type 0
IsInterface v i =
    (fs : Fields) × (v ≡ dict fs)
    × (field_of "ifaceType" fs ≡ optional i.kind)
    × (field_of "hwAddress" fs ≡ str i.hardware)
    × (field_of "ipv4" fs ≡ optional i.ip)
    × (field_of "wifiSSID" fs ≡ optional i.ssid)

abbrev pub interface_step : String → String → Interface → Step
interface_step id relay i = Step.statement (
    "INSERT into Device (deviceID, interface, mac, ip, wifiSSID, relay) values ('"
    <> id
    <> "', '"
    <> dot_or i.kind
    <> "', '"
    <> i.hardware
    <> "', '"
    <> dot_or i.ip
    <> "', '"
    <> dot_or i.ssid
    <> "', '"
    <> relay
    <> "')")

or_dot_lem : (t : Option String) → as_text (or_dot (optional t)) ≡ ok (dot_or t)
unfolding as_text
or_dot_lem none = refl
or_dot_lem (some t) = refl

abbrev pub join_steps : String → String → List Interface → List Step
join_steps id relay interfaces = map (interface_step id relay) interfaces ++ (Step.save ∷ [])

module _ (V : Server) where
  insert_interface-Runs :
      (id relay : String) (n : ℕ) (v : Value) (i : Interface)
      → IsInterface v i
      → Runs V n (insert_interface V id relay v) (interface_step id relay i ∷ []) n (Anything V)
  unfolding insert_interface get device_insert as_text
  insert_interface-Runs id relay n v i (fs, is, kind, hardware, ip, ssid) =
      Runs-lifts V _ (optional i.kind) _ (rw is (ap ok kind)) (
        Runs-lifts V _ (str i.hardware) _ (rw is (ap ok hardware)) (
          Runs-lifts V _ (optional i.ip) _ (rw is (ap ok ip)) (
            Runs-lifts V _ (optional i.ssid) _ (rw is (ap ok ssid)) (
              Runs-lifts V _ (dot_or i.kind) _ (or_dot_lem i.kind) (
                Runs-lifts V _ i.hardware _ refl (
                  Runs-lifts V _ (dot_or i.ip) _ (or_dot_lem i.ip) (
                    Runs-lifts V _ (dot_or i.ssid) _ (or_dot_lem i.ssid) (Runs-execute V n _))))))))

  join_stored :
      (id relay : String) (n : ℕ) (values : List Value) (interfaces : List Interface)
      → Forall₂ IsInterface values interfaces
      → Runs V n
          ((traverse (insert_interface V id relay) values >> commit V) >> pure (id_reply V 0 id))
          (join_steps id relay interfaces)
          n
          (λ a. a ≡ id_reply V 0 id)
  join_stored id relay n values interfaces are =
      Runs-keep V _ _
        (Runs-bind V _ _
          (Runs-each V _ (interface_step id relay) n (insert_interface-Runs id relay n) values
            interfaces are)
          (λ _ _. Runs-commit V _))
        (λ _ _. refl)

  -- `Join` for a message with interfaces that have a hardware address, in a database whose largest
  -- number of a device has `id` as the next: one row with that ID is inserted for each interface, in
  -- order, with a dot for each other part that is missing, and all is committed; the first failure
  -- ends it. The reply holds the ID, with error 0 if there was none and error 1 otherwise.
  pub join_lem :
      (fs : Fields) (id relay : String) (values : List Value) (interfaces : List Interface)
      (max_id : Value) (s : Resolver V.State) (db1 db2 : V.State)
      → V.connect s.db ≡ (true, db1)
      → V.execute largest_id_query db1 ≡ (some (list_of (max_id ∷ []) ∷ []), db2)
      → next_id max_id ≡ ok id
      → relay_text (field_of "relay" fs) ≡ ok relay
      → field_of "uniqueCodes" fs ≡ list_of values
      → Forall₂ IsInterface values interfaces
      → let (all, s') = perform V (join_steps id relay interfaces) (record s { db = db2 }) in
        join V (dict fs) s ≡ (ok (if all then id_reply V 0 id else id_reply V 1 id), s')
  unfolding join new_device_id insert_interfaces get only_cell first iterate connect execute
      try_except ◌>>=◌
  join_lem fs id relay values interfaces max_id s db1 db2 connects largest next relays are_values
        are =
      rw (connects, largest, next, relays, are_values, to_list-of_list values)
        (Runs-reply V
          ((traverse (insert_interface V id relay) values >> commit V) >> pure (id_reply V 0 id))
          (id_reply V 0 id) (λ e. id_reply V 1 id) (record s { db = db2 })
          (join_stored id relay s.manage_num values interfaces are) refl)
