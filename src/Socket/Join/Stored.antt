-- ===== src/Socket/Join/Stored.antt =====
-- What `Join` of the socketIO service writes for the neighbors and the interfaces of a device.
use mathlib.Core.List.{Forall₂}
use versatile.Base.{
  ℕ, String, ◌≡◌, refl, ap, Bool, true, false, inl, inr, Bool-cases, ◌&&◌, some, List, [], ◌∷◌,
  ◌++◌, map, if◌then◌else◌,
}
use versatile.Base.Dict.{Dict, contains, insert}
use versatile.Py.Value.{
  ok, Result, Value, dict, list_of, Fields, field_of, get, iterate, first, to_list-of_list,
}
use versatile.Py.Exec.{
  pure, lift, gets, modify, try_except, handle, continue, traverse, ◌>>=◌, ◌>>◌,
}
use versatile.Manager.Device.{or_null}
use versatile.Resolver as Flask
use versatile.Resolver.{Server, Resolver}
use versatile.Resolver.Join.{next_id}
use versatile.Resolver.Join.Identity.{largest_id_query}
use versatile.Resolver.Join.Stored.{Interface, IsInterface}
use versatile.Resolver.Steps.{Step, perform, Runs, Runs-bind, Runs-commit, Anything, Ran}
use versatile.Resolver.Steps.Loops.{Runs-statements}
use versatile.Socket.{Emission, Act, commit, connect, execute, only_cell, emit}
use versatile.Socket.Answers.{to_client}
use versatile.Socket.Join.Rows.{
  Neighbor, IsNeighbor, neighbor_text, interface_text, insert_neighbor-Same, insert_interface-Same,
}
use versatile.Socket.Mirror.{
  beside, Related, Same, Same-Raises, Same-commit, Same-each, Related-bind, Related-reads,
}
use versatile.Socket.Join.{
  relay_or_none, join_message, insert_neighbor, insert_interface, join, new_device_id, join_work,
  start_session,
}

-- The session of the client behind a join.
abbrev pub logged_in : String → String → Dict String → Dict String
logged_in token id session =
    if contains "session" session && contains "user-id" session
    then session
    else insert "username" id (insert "session" token session)

abbrev pub join_steps : String → String → List Neighbor → List Interface → List Step
join_steps id relay neighbors interfaces =
    map (λ n. Step.statement (neighbor_text id n)) neighbors
    ++ (map (λ i. Step.statement (interface_text id relay i)) interfaces ++ (Step.save ∷ []))

module _ (V : Server) (session : Dict String) (emitted : List Emission) where
  -- The statements, as the Flask service would run them.
  abbrev script : String → String → List Neighbor → List Interface → Flask.Act V Unit
  script id relay neighbors interfaces = do
    traverse (λ n. Flask.execute V (neighbor_text id n)) neighbors
    traverse (λ i. Flask.execute V (interface_text id relay i)) interfaces
    Flask.commit V

  script-Runs :
      (id relay : String) (neighbors : List Neighbor) (interfaces : List Interface) (n : ℕ)
      → Runs V n
          (script id relay neighbors interfaces)
          (join_steps id relay neighbors interfaces)
          n
          (Anything V)
  script-Runs id relay neighbors interfaces n =
      Runs-bind V _ _ (Runs-statements V (neighbor_text id) n neighbors) (λ _ _.
        Runs-bind V _ _ (Runs-statements V (interface_text id relay) n interfaces)
          (λ _ _. Runs-commit V n))

  -- Behind the session.
  abbrev join_rest : Value → String → Act V Unit
  join_rest content id = do
    relay ← lift (get content "relay")
    relay ← lift (relay_or_none relay)
    neighbors ← lift (get content "neighbors")
    neighbors ← lift (iterate (or_null neighbors))
    traverse (insert_neighbor V id) neighbors
    unique_codes ← lift (get content "uniqueCodes")
    codes ← lift (iterate unique_codes)
    traverse (insert_interface V id relay) codes
    commit V

  join_rest-Same :
      (id relay : String) (fs : Fields) (nodes codes : List Value) (neighbors : List Neighbor)
      (interfaces : List Interface)
      → relay_or_none (field_of "relay" fs) ≡ ok relay
      → field_of "neighbors" fs ≡ list_of nodes
      → Forall₂ IsNeighbor nodes neighbors
      → field_of "uniqueCodes" fs ≡ list_of codes
      → Forall₂ IsInterface codes interfaces
      → Related V session emitted
          (Same V session emitted)
          (join_rest (dict fs) id)
          (script id relay neighbors interfaces)
  unfolding get iterate
  join_rest-Same id relay fs nodes codes neighbors interfaces relays are_nodes hn are_codes hi =
      Related-reads V session emitted _ (field_of "relay" fs) _ _ refl (
        Related-reads V session emitted _ relay _ _ relays (
          Related-reads V session emitted _ (list_of nodes) _ _ (ap ok are_nodes) (
            Related-reads V session emitted _ nodes _ _ (ap ok (to_list-of_list nodes)) (
              Related-bind V session emitted _ _ _ _ (Same-Raises V session emitted)
                (Same-each V session emitted _ _ (insert_neighbor-Same V session emitted id) nodes
                  neighbors hn)
                (λ _. Related-reads V session emitted _ (list_of codes) _ _ (ap ok are_codes) (
                  Related-reads V session emitted _ codes _ _ (ap ok (to_list-of_list codes)) (
                    Related-bind V session emitted _ _ _ _ (Same-Raises V session emitted)
                      (Same-each V session emitted _ _
                        (insert_interface-Same V session emitted id relay) codes interfaces hi)
                      (λ _. Same-commit V session emitted))))))))

module _ (V : Server) where
  session_started :
      (token id : String) (session : Dict String) (emitted : List Emission) (t : Resolver V.State)
      → start_session V token id (beside V session emitted t)
        ≡ (ok tt, beside V (logged_in token id session) emitted t)
  unfolding start_session gets modify pure ◌>>=◌
  session_started token id session emitted t =
      elim (Bool-cases (contains "session" session && contains "user-id" session)) [
        | inl h ↦ rw h refl
        | inr h ↦ rw h refl
      ]

  join_work-rest :
      (token id : String) (content : Value) (session : Dict String) (emitted : List Emission)
      (t : Resolver V.State)
      → join_work V token content id (beside V session emitted t)
        ≡ join_rest V session emitted content id (beside V (logged_in token id session) emitted t)
  unfolding join_work ◌>>=◌
  join_work-rest token id content session emitted t =
      rw (session_started token id session emitted t) refl

  -- The answer, by how the statements went.
  jack :
      (id : String) (n : ℕ) (session : Dict String) (emitted : List Emission)
      (out : Bool × Resolver V.State) (y : Result Unit × Resolver V.State)
      → Ran V n (Anything V) out y
      → handle
          (continue y.0 (λ _. emit V "Jack" (join_message 0 id)) (beside V session emitted y.1)).0
          (λ e. emit V "Jack" (join_message 1 id))
          (continue y.0 (λ _. emit V "Jack" (join_message 0 id)) (beside V session emitted y.1)).1
        ≡ (
          ok tt,
          record (beside V session emitted out.1) {
            emitted = emitted ++ to_client "Jack" (join_message (if out.0 then 0 else 1) id) ∷ [];
          },
        )
  unfolding emit
  jack id n session emitted (true, t) y (u, q, same, h) = rw same refl
  jack id n session emitted (false, t) y same = rw same refl

  -- Join of the socketIO service, for a message with lists of neighbors and of interfaces, whose
  -- parts are texts, missing or null, but the hardware address of an interface is a text, and with
  -- a relay that is missing, null, the text none or a value that int takes, in a database that
  -- accepts the connection and whose largest number of a device has some ID as the next: unless
  -- the session has both 'session' and 'user-id', its 'session' and 'username' are set to the new
  -- token and the ID; one row with that ID is inserted for each neighbor, then for each interface,
  -- in order, with NULL for a part that is missing, and all is committed; the first failure ends
  -- it. One answer Jack is emitted, with the ID, and error 0 if there was no failure and error 1
  -- otherwise.
  pub join_inserts :
      (token id relay : String) (fs : Fields) (nodes codes : List Value) (neighbors : List Neighbor)
      (interfaces : List Interface) (max_id : Value) (session : Dict String)
      (emitted : List Emission) (t : Resolver V.State) (db1 db2 : V.State)
      → V.connect t.db ≡ (true, db1)
      → V.execute largest_id_query db1 ≡ (some (list_of (max_id ∷ []) ∷ []), db2)
      → next_id max_id ≡ ok id
      → relay_or_none (field_of "relay" fs) ≡ ok relay
      → field_of "neighbors" fs ≡ list_of nodes
      → Forall₂ IsNeighbor nodes neighbors
      → field_of "uniqueCodes" fs ≡ list_of codes
      → Forall₂ IsInterface codes interfaces
      → let (all, t') =
          perform V (join_steps id relay neighbors interfaces) (record t { db = db2 }) in
        join V token (dict fs) (beside V session emitted t) ≡ (
          ok tt,
          record (beside V (logged_in token id session) emitted t') {
            emitted = emitted ++ to_client "Jack" (join_message (if all then 0 else 1) id) ∷ [];
          },
        )
  unfolding join new_device_id connect execute only_cell first try_except ◌>>=◌
  join_inserts token id relay fs nodes codes neighbors interfaces max_id session emitted t db1 db2
        connects largest next relays are_nodes hn are_codes hi =
      let rest = script-Runs V session emitted id relay neighbors interfaces t.manage_num in
      rw
        (
          connects,
          largest,
          next,
          join_work-rest token id (dict fs) session emitted (record t { db = db2 }),
          (join_rest-Same V (logged_in token id session) emitted id relay fs nodes codes neighbors
                interfaces relays are_nodes hn are_codes hi).at
              (record t { db = db2 }),
        )
        (jack id t.manage_num (logged_in token id session) emitted _ _
          (rest.at (record t { db = db2 }) refl))
