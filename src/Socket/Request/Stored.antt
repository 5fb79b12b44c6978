-- ===== src/Socket/Request/Stored.antt =====
-- What `Request` of the socketIO service writes for a request.
use mathlib.Core.List.{Forall₂}
use mathlib.Core.List.{append_assoc}
use versatile.Base.{
  ℕ, String, ◌<>◌, ◌≡◌, refl, ap, Bool, true, false, some, List, [], ◌∷◌, ◌++◌, map,
}
use versatile.Base.Dict.{Dict}
use versatile.Py.Value.{
  ok, Result, Value, str, dict, list_of, Fields, field_of, get, as_text, iterate, first,
  to_list-of_list,
}
use versatile.Py.Exec.{pure, traverse, try_except, continue, ◌>>=◌, ◌>>◌}
use versatile.Resolver as Flask
use versatile.Resolver.{Server, Resolver}
use versatile.Resolver.Join.{next_id}
use versatile.Resolver.Request as FlaskRequest
use versatile.Resolver.Request.Stored.{
  Requirement, IsRequirement, requirement_step, request_steps, largest_service,
  insert_requirement-Runs,
}
use versatile.Resolver.Steps.{perform, Ran, Runs, Runs-bind, Runs-execute, Runs-commit, Runs-pure}
use versatile.Resolver.Steps.Loops.{Runs-each}
use versatile.Socket.{
  Emission, Act, connect, execute, commit, only_cell, emit, emit_all, error_message,
}
use versatile.Socket.Answers.{to_client}
use versatile.Socket.Mirror.{
  beside, Related, Same, Same-Raises, Same-pure, Same-lift, Same-execute, Same-commit,
  Same-traverse, Related-bind,
}
use versatile.Socket.Request.{matching, insert_requirement, request_work, request}
use versatile.Socket.Request.Matching.{to_all, emitted_all}

abbrev pub largest_request : String
largest_request = "SELECT MAX(CAST(requestID as  SIGNED)) From Request"

abbrev request_text : String → String → String → String
request_text id device service =
    "INSERT into Request (requestID, deviceID, serviceID) values ('" <> id <> "', '" <> device
    <> "', '" <> service <> "')"

-- What is emitted, by whether the statements went through.
abbrev pub rack : String → Bool → List Emission
rack kind true =
    map (to_all "MatchingRequest") (matching (str kind)) ++ to_client "Rack" (error_message 0) ∷ []
rack kind false = to_client "Rack" (error_message 1) ∷ []

module _ (V : Server) where
  -- The statements, as the Flask service would run them.
  abbrev script : String → String → String → String → List Value → Flask.Act V Value
  script id device service kind values = do
    Flask.execute V (request_text id device service)
    traverse (FlaskRequest.insert_requirement V id) values
    Flask.commit V
    pure (str kind)

  script-Runs :
      (id device service kind : String) (values : List Value) (requirements : List Requirement)
      (n : ℕ)
      → Forall₂ IsRequirement values requirements
      → Runs V n
          (script id device service kind values)
          (request_steps id device service requirements)
          n
          (λ a. a ≡ str kind)
  script-Runs id device service kind values requirements n are =
      Runs-bind V _ _ (Runs-execute V n _) (λ _ _.
        Runs-bind V _ _
          (Runs-each V _ (requirement_step id) n (insert_requirement-Runs V id n) values
            requirements are)
          (λ _ _. Runs-bind V _ _ (Runs-commit V n) (λ _ _. Runs-pure V n (str kind))))

  abbrev request_rest : String → String → String → String → List Value → Act V Value
  request_rest id device service kind values = do
    execute V (request_text id device service)
    traverse (insert_requirement V id) values
    commit V
    pure (str kind)

  module _ (session : Dict String) (emitted : List Emission) where
    -- The same statement of both, and what follows.
    Same-then :
        {A B : Type 0} {m : Act V A} {m' : Flask.Act V A} {f : A → Act V B} {f' : A → Flask.Act V B}
        → Related V session emitted (Same V session emitted) m m'
        → ((a : A) → Related V session emitted (Same V session emitted) (f a) (f' a))
        → Related V session emitted (Same V session emitted) (m >>= f) (m' >>= f')
    Same-then {m = m} {m' = m'} {f = f} {f' = f'} hm hf =
        Related-bind V session emitted m m' f f' (Same-Raises V session emitted) hm hf

    insert_requirement-Same :
        (id : String) (v : Value) (r : Requirement)
        → IsRequirement v r
        → Related V session emitted
            (Same V session emitted)
            (insert_requirement V id v)
            (FlaskRequest.insert_requirement V id v)
    unfolding insert_requirement FlaskRequest.insert_requirement
    insert_requirement-Same id v r h = Same-then (Same-lift V session emitted _) (λ a.
        Same-then (Same-lift V session emitted _) (λ b.
          Same-then (Same-lift V session emitted _) (λ c.
            Same-then (Same-lift V session emitted _) (λ d.
              Same-then (Same-lift V session emitted _) (λ a.
                Same-then (Same-lift V session emitted _) (λ b.
                  Same-then (Same-lift V session emitted _) (λ c.
                    Same-then (Same-lift V session emitted _)
                      (λ d. Same-execute V session emitted _))))))))

    request_rest-Same :
        (id device service kind : String) (values : List Value) (requirements : List Requirement)
        → Forall₂ IsRequirement values requirements
        → Related V session emitted
            (Same V session emitted)
            (request_rest id device service kind values)
            (script id device service kind values)
    request_rest-Same id device service kind values requirements are =
        Same-then (Same-execute V session emitted _) (λ _.
          Same-then
            (Same-traverse V session emitted _ _ (insert_requirement-Same id) values requirements
              are)
            (λ _.
              Same-then (Same-commit V session emitted)
                (λ _. Same-pure V session emitted (str kind))))

    answered :
        (kind : String) (n : ℕ) (out : Bool × Resolver V.State)
        (y : Result Value × Resolver V.State)
        → Ran V n (λ a. a ≡ str kind) out y
        → try_except
            (λ s.
              continue y.0
                (λ service_type.
                  traverse (emit_all V "MatchingRequest") (matching service_type)
                  >> emit V "Rack" (error_message 0))
                (beside V session emitted y.1))
            (λ e. emit V "Rack" (error_message 1))
            (beside V session emitted y.1)
          ≡ (
            ok tt,
            record (beside V session emitted out.1) { emitted = emitted ++ rack kind out.0 },
          )
    unfolding emit try_except ◌>>=◌
    answered kind n (true, t) y (a, is_kind, same, h) =
        let (us, all) =
          emitted_all V "MatchingRequest" (matching (str kind)) (beside V session emitted t) in
        rw (same, is_kind, all)
          (ap (λ es. (ok tt, record (beside V session emitted t) { emitted = es }))
            (append_assoc emitted _ _))
    answered kind n (false, t) y same = rw same refl

    request_work-rest :
        (fs : Fields) (id device service kind keywords : String) (values : List Value)
        (max_id : Value) (t : Resolver V.State) (db1 db2 db3 : V.State)
        → field_of "deviceID" fs ≡ str device
        → field_of "serviceType" fs ≡ str kind
        → field_of "keywords" fs ≡ str keywords
        → field_of "qosRequirements" fs ≡ list_of values
        → V.connect t.db ≡ (true, db1)
        → V.execute largest_request db1 ≡ (some (list_of (max_id ∷ []) ∷ []), db2)
        → next_id max_id ≡ ok id
        → V.execute largest_service db2 ≡ (some (list_of (str service ∷ []) ∷ []), db3)
        → request_work V (dict fs) (beside V session emitted t)
          ≡ request_rest id device service kind values
              (beside V session emitted (record t { db = db3 }))
    unfolding request_work connect execute only_cell first get as_text iterate ◌>>=◌
    request_work-rest fs id device service kind keywords values max_id t db1 db2 db3 device_is
          kind_is keywords_are are_values connects requests next services =
        rw
          (
            connects,
            requests,
            next,
            services,
            device_is,
            kind_is,
            keywords_are,
            are_values,
            to_list-of_list values,
          )
          refl

    -- `Request` for a message with texts as its device, its service type and its keywords and with
    -- requirements, in a database whose largest number of a request has `id` as the next and whose
    -- largest ID of a service is `service`: the request is inserted with that ID and that service,
    -- then one row for each requirement, in order, and all is committed; the first failure ends it.
    -- If there was none, the fixed matching results of the service type are emitted to all clients,
    -- in order, and then Rack with error 0; otherwise only Rack with error 1.
    pub request_inserts :
        (fs : Fields) (id device service kind keywords : String) (values : List Value)
        (requirements : List Requirement) (max_id : Value) (t : Resolver V.State)
        (db1 db2 db3 : V.State)
        → field_of "deviceID" fs ≡ str device
        → field_of "serviceType" fs ≡ str kind
        → field_of "keywords" fs ≡ str keywords
        → field_of "qosRequirements" fs ≡ list_of values
        → Forall₂ IsRequirement values requirements
        → V.connect t.db ≡ (true, db1)
        → V.execute largest_request db1 ≡ (some (list_of (max_id ∷ []) ∷ []), db2)
        → next_id max_id ≡ ok id
        → V.execute largest_service db2 ≡ (some (list_of (str service ∷ []) ∷ []), db3)
        → let (all, t') =
            perform V (request_steps id device service requirements) (record t { db = db3 }) in
          request V (dict fs) (beside V session emitted t)
          ≡ (ok tt, record (beside V session emitted t') { emitted = emitted ++ rack kind all })
    unfolding request try_except ◌>>=◌
    request_inserts fs id device service kind keywords values requirements max_id t db1 db2 db3
          device_is kind_is keywords_are are_values are connects requests next services =
        let runs = script-Runs id device service kind values requirements t.manage_num are in
        rw
          (
            request_work-rest fs id device service kind keywords values max_id t db1 db2 db3
                device_is kind_is keywords_are are_values connects requests next services,
            (request_rest-Same id device service kind values requirements are).at
                (record t { db = db3 }),
          )
          (answered kind t.manage_num _ _ (runs.at (record t { db = db3 }) refl))
