-- ===== src/Manager/Join/Stored.antt =====
-- What a join stores, and what it answers, once the ID is chosen.
use versatile.Base.{
  String, ◌≡◌, refl, Bool, true, false, ◌&&◌, not, List, [], ◌∷◌, map, if◌then◌else◌, arith, inl,
  inr,
}
use versatile.Py.Value.{
  to_list-of_list, Result-cases, ok, Value, str, dict, list_of, Fields, number, is_none, get,
  iterate, field_of,
}
use versatile.Py.Exec.{pure, traverse, ◌>>=◌, ◌>>◌}
use versatile.World.{World}
use versatile.Manager.{Manager, Act, dict_of, execute, commit}
use versatile.Manager.Database.Statements.{insert_statements, db_proc-insert}
use versatile.Manager.Device.{or_null, or_null_text, is_missing, require_zero}
use versatile.Manager.Join.{device_row, neighbor_row, join_insert, join_rows}

-- The row of an interface.
abbrev pub interface_row : String → Value → Value → Fields → Value
interface_row id relay pub_key code = dict_of (
    ("deviceId", str id)
    ∷ ("relay", relay)
    ∷ ("pubKey", pub_key)
    ∷ (
      "ifaceType",
      if is_none (field_of "hwAddress" code)
          then str "NULL"
          else or_null (field_of "ifaceType" code),
    )
    ∷ ("hwAddress", field_of "hwAddress" code)
    ∷ ("ipv4", or_null (field_of "ipv4" code))
    ∷ ("wifiSSID", or_null (field_of "wifiSSID" code))
    ∷ [])

-- The row of a neighbor.
abbrev pub link_row : String → Fields → Value
link_row id neighbor = dict_of (
    ("neighborIface", or_null_text (field_of "neighborIface" neighbor))
    ∷ ("neighborIpv4", or_null_text (field_of "neighborIpv4" neighbor))
    ∷ ("neighborHwAddress", or_null_text (field_of "neighborHwAddress" neighbor))
    ∷ ("neighborId", field_of "neighborFlexID" neighbor)
    ∷ ("deviceId", str id)
    ∷ [])

-- Every neighbor has an ID.
abbrev pub all_named : List Fields → Bool
all_named [] = true
all_named (n ∷ ns) = not (is_missing (field_of "neighborFlexID" n)) && all_named ns

abbrev pub dicts : List Fields → List Value
dicts fs = map dict fs

module _ (W : World) where
  interface_rows :
      (id : String) (relay pub_key : Value) (codes : List Fields) (s : Manager W.State)
      → traverse (device_row W id relay pub_key) (dicts codes) s
        ≡ (ok (map (interface_row id relay pub_key) codes), s)
  unfolding traverse device_row get ◌>>=◌
  interface_rows id relay pub_key [] s = refl
  interface_rows id relay pub_key (code ∷ codes) s =
      rw (interface_rows id relay pub_key codes s) refl

  link_rows :
      (id : String) (neighbors : List Fields) (s : Manager W.State)
      → all_named neighbors ≡ true
      → traverse (neighbor_row W id) (dicts neighbors) s ≡ (ok (map (link_row id) neighbors), s)
  unfolding traverse neighbor_row get ◌>>=◌
  link_rows id [] s h = refl
  link_rows id (n ∷ ns) s h =
      let named : is_missing (field_of "neighborFlexID" n) ≡ false = ground arith in
      let rest : all_named ns ≡ true = ground arith in rw (named, link_rows id ns s rest) refl

  -- An insert whose rows have statements runs them, in order, and commits.
  abbrev pub stores : List String → Act W Unit
  stores queries = do traverse (execute W) queries; commit W

  join_insert-eq :
      (table : String) (rows : List Value) (queries : List String) (s : Manager W.State)
      → insert_statements W table rows ≡ ok queries
      → join_insert W table rows s ≡ stores queries s
  unfolding join_insert require_zero get ◌>>=◌
  join_insert-eq table rows queries s h =
      let s1 = (traverse (execute W) queries s).1 in
      rw (db_proc-insert W table rows queries s h)
        (elim (Result-cases (traverse (execute W) queries s).0) [
          | inl (e, ran) ↦ rw ran refl
          | inr (out, ran) ↦ elim (Result-cases (commit W s1).0) [
            | inl (e, done) ↦ rw (ran, done) refl
            | inr (u, done) ↦ rw (ran, done) refl
          ]
        ])

  -- Behind the choice of the ID, a join with lists of interfaces and of neighbors, whose rows have
  -- statements and whose neighbors all have an ID, runs the statements of the interfaces, in their
  -- order, and commits, runs those of the neighbors, and commits, and then replies with error 0, the
  -- ID and the relay; where a statement or a commit raises, it ends there.
  pub join_rows_lem :
      (fs : Fields) (relay : Value) (id : String) (codes neighbors : List Fields)
      (device_queries neighbor_queries : List String) (s : Manager W.State)
      → field_of "uniqueCodes" fs ≡ list_of (dicts codes)
      → field_of "neighbors" fs ≡ list_of (dicts neighbors)
      → all_named neighbors ≡ true
      → insert_statements W "Device" (map (interface_row id relay (field_of "pubKey" fs)) codes)
        ≡ ok device_queries
      → insert_statements W "Neighbor" (map (link_row id) neighbors) ≡ ok neighbor_queries
      → join_rows W (dict fs) relay id s
        ≡ (stores device_queries
              >> (stores neighbor_queries
                  >> pure
                      (dict_of (("error:", number 0) ∷ ("id", str id) ∷ ("relay", relay) ∷ []))))
            s
  unfolding join_rows get iterate ◌>>=◌
  join_rows_lem fs relay id codes neighbors device_queries neighbor_queries s hc hn named hd hq =
      let s1 = (stores device_queries s).1 in
      let rows = map (interface_row id relay (field_of "pubKey" fs)) codes in
      rw
        (
          hc,
          hn,
          to_list-of_list (dicts codes),
          interface_rows id relay (field_of "pubKey" fs) codes s,
        )
        (rw (join_insert-eq "Device" rows device_queries s hd)
          (elim (Result-cases (stores device_queries s).0) [
            | inl (e, ran) ↦ rw ran refl
            | inr (u, ran) ↦
                rw (ran, to_list-of_list (dicts neighbors), link_rows id neighbors s1 named)
                  (rw
                    (join_insert-eq "Neighbor" (map (link_row id) neighbors) neighbor_queries s1 hq)
                    refl)
          ]))
