-- ===== src/Resolver/Request/Stored.antt =====
-- What `Request` of the Flask service writes for a request.
use mathlib.Core.List.{Forall₂}
use versatile.Base.{
  ℕ, String, ◌<>◌, ◌≡◌, refl, ap, true, some, List, [], ◌∷◌, ◌++◌, map, if◌then◌else◌,
}
use versatile.Py.Value.{
  database_error, ok, Value, str, dict, list_of, Fields, field_of, get, as_text, iterate, first,
  to_list-of_list,
}
use versatile.Py.Exec.{pure, traverse, try_except, ◌>>=◌, ◌>>◌}
use versatile.Resolver.{Server, Resolver, text, error_text, connect, execute, commit, only_cell}
use versatile.Resolver.Join.{next_id}
use versatile.Resolver.Steps.{
  Step, perform, Runs, Runs-lifts, Runs-bind, Runs-execute, Runs-pure, Runs-commit, Runs-reply,
  Anything,
}
use versatile.Resolver.Steps.Loops.{Runs-each}
use versatile.Resolver.Request.{insert_requirement, request_work, request}

-- A requirement of a message.
pub record Requirement : Type 0 where
  pub metric : String
  pub measure : String
  pub amount : String
  pub relation : String

abbrev pub IsRequirement : Value → Requirement → Type 0
IsRequirement v r =
    (fs : Fields) × (v ≡ dict fs)
    × (field_of "metricName" fs ≡ str r.metric)
    × (field_of "metricUnit" fs ≡ str r.measure)
    × (field_of "metricValue" fs ≡ str r.amount)
    × (field_of "metricOperator" fs ≡ str r.relation)

abbrev pub requirement_step : String → Requirement → Step
requirement_step id r = Step.statement (
    "INSERT into QosRequirement (requestID, metricName, metricUnit, metricValue, metricOperator) values ('"
    <> id <> "', '" <> r.metric <> "', '" <> r.measure <> "', '" <> r.amount <> "', '" <> r.relation
    <> "')")

abbrev pub largest_request : String
largest_request = "SELECT MAX(requestID) From Request"

abbrev pub largest_service : String
largest_service = "SELECT MAX(serviceID) from Service"

abbrev pub request_steps : String → String → String → List Requirement → List Step
request_steps id device service requirements =
    Step.statement (
      "INSERT into Request (requestID, deviceID, serviceID) values ('" <> id <> "', '" <> device
      <> "', '" <> service <> "')")
    ∷ (map (requirement_step id) requirements ++ (Step.save ∷ []))

module _ (V : Server) where
  pub insert_requirement-Runs :
      (id : String) (n : ℕ) (v : Value) (r : Requirement)
      → IsRequirement v r
      → Runs V n (insert_requirement V id v) (requirement_step id r ∷ []) n (Anything V)
  unfolding insert_requirement get as_text
  insert_requirement-Runs id n v r (fs, is, metric, measure, amount, relation) =
      Runs-lifts V _ (str r.metric) _ (rw is (ap ok metric)) (
        Runs-lifts V _ (str r.measure) _ (rw is (ap ok measure)) (
          Runs-lifts V _ (str r.amount) _ (rw is (ap ok amount)) (
            Runs-lifts V _ (str r.relation) _ (rw is (ap ok relation)) (
              Runs-lifts V _ r.metric _ refl (
                Runs-lifts V _ r.measure _ refl (
                  Runs-lifts V _ r.amount _ refl
                    (Runs-lifts V _ r.relation _ refl (Runs-execute V n _))))))))

  request_stored :
      (id device service : String) (n : ℕ) (values : List Value) (requirements : List Requirement)
      → Forall₂ IsRequirement values requirements
      → Runs V n
          (do
            execute V (
                "INSERT into Request (requestID, deviceID, serviceID) values ('" <> id <> "', '"
                <> device <> "', '" <> service <> "')")
            traverse (insert_requirement V id) values
            commit V
            pure (text "Good"))
          (request_steps id device service requirements)
          n
          (λ a. a ≡ text "Good")
  request_stored id device service n values requirements are =
      Runs-bind V _ _ (Runs-execute V n _) (λ _ _.
        Runs-bind V _ _
          (Runs-each V _ (requirement_step id) n (insert_requirement-Runs id n) values requirements
            are)
          (λ _ _. Runs-bind V _ _ (Runs-commit V _) (λ _ _. Runs-pure V _ (text "Good"))))

  -- `Request` for a message with a text as its device and with requirements, in a database whose
  -- largest number of a request has `id` as the next and whose largest ID of a service is `service`:
  -- the request is inserted with that ID and that service, then one row for each requirement, in
  -- order, and all is committed; the first failure ends it. The reply is "Good" if there was none,
  -- and the text of the error otherwise.
  pub request_lem :
      (fs : Fields) (id device service : String) (values : List Value)
      (requirements : List Requirement) (max_id : Value) (s : Resolver V.State)
      (db1 db2 db3 : V.State)
      → field_of "deviceID" fs ≡ str device
      → field_of "qosRequirements" fs ≡ list_of values
      → Forall₂ IsRequirement values requirements
      → V.connect s.db ≡ (true, db1)
      → V.execute largest_request db1 ≡ (some (list_of (max_id ∷ []) ∷ []), db2)
      → next_id max_id ≡ ok id
      → V.execute largest_service db2 ≡ (some (list_of (str service ∷ []) ∷ []), db3)
      → let (all, s') =
          perform V (request_steps id device service requirements) (record s { db = db3 }) in
        request V (dict fs) s ≡ (ok (if all then text "Good" else error_text database_error), s')
  unfolding request request_work get as_text only_cell first iterate connect execute try_except
      ◌>>=◌
  request_lem fs id device service values requirements max_id s db1 db2 db3 device_is are_values are
        connects requests next services =
      rw (connects, requests, next, services, device_is, are_values, to_list-of_list values)
        (Runs-reply V
          (do
            execute V (
                "INSERT into Request (requestID, deviceID, serviceID) values ('" <> id <> "', '"
                <> device <> "', '" <> service <> "')")
            traverse (insert_requirement V id) values
            commit V
            pure (text "Good"))
          (text "Good") error_text (record s { db = db3 })
          (request_stored id device service s.manage_num values requirements are) refl)
