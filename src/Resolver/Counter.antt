-- ===== src/Resolver/Counter.antt =====
-- The global `manageNum` over a session of the Flask service.
use versatile.Base.{ℕ, zero, suc, ◌+◌, ◌≤◌, String, ◌≢◌, List, [], ◌∷◌, arith, ap}
use versatile.Py.Value.{Error, Result, ok, err, Value, str}
use versatile.Py.Exec.{pure, modify, gets, try_except, handle, ◌>>=◌}
use versatile.Py.Exec.Frame.{Keeps, IsPreorder, keeps_rules, Keeps-bind}
use versatile.Resolver.{Server, Resolver, Act, Reply, connect, execute, commit, only_cell}
use versatile.Resolver.ServiceId.{gen_service_id}
use versatile.Resolver.ServiceId.Unique.{ServiceType, type_name, service_id_unique}
use versatile.Resolver.Join.{new_device_id, insert_interface, insert_interfaces, join}
use versatile.Resolver.Update.{add_columns, insert_service, insert_services, update_work, update}
use versatile.Resolver.Leave.{leave_work, leave}
use versatile.Resolver.Request.{insert_requirement, request_work, request}

-- The value of a result.
value_or : Result Value → Value
value_or (ok v) = v
value_or (err e) = str ""

module _ (V : Server) where
  abbrev Counts : Resolver V.State → Resolver V.State → Type 0
  Counts s t = s.manage_num ≤ t.manage_num

  Counts-preorder : IsPreorder Counts
  Counts-preorder = record { same = λ s. omega arith; chain = λ s t u p q. omega arith }

  connect-Counts : Keeps Counts (connect V)
  unfolding connect
  connect-Counts = record { at = λ s. omega arith }

  execute-Counts : (query : String) → Keeps Counts (execute V query)
  unfolding execute
  execute-Counts query = record { at = λ s. omega arith }

  commit-Counts : Keeps Counts (commit V)
  unfolding commit
  commit-Counts = record { at = λ s. omega arith }

  try_except-Counts :
      {A : Type 0} (m : Act V A) (f : Error → Act V A)
      → Keeps Counts m
      → ((e : Error) → Keeps Counts (f e))
      → Keeps Counts (try_except m f)
  unfolding try_except
  try_except-Counts {A = A} m f km kf = record {
    at = λ s. let (r, s') = m s in go s r s' (km.at s);
  }
    where
      go :
          (s : Resolver V.State) (r : Result A) (s' : Resolver V.State)
          → Counts s s'
          → Counts s (handle r f s').1
      go s (ok a) s' h = h
      go s (err e) s' h = omega (arith, (kf e).at s')

  gen_service_id-Counts : (service : Value) → Keeps Counts (gen_service_id V service)
  unfolding gen_service_id modify gets pure ◌>>=◌
  gen_service_id-Counts service = record { at = λ s. omega arith }

  ruleset counts_rules = (
    keeps_rules, Counts-preorder, connect-Counts, execute-Counts, commit-Counts, try_except-Counts,
    gen_service_id-Counts,
  )

  only_cell-Counts : (rows : List Value) → Keeps Counts (only_cell V rows)
  unfolding only_cell
  only_cell-Counts rows = search counts_rules depth 12

  insert_interface-Counts :
      (device_id relay : String) (code : Value)
      → Keeps Counts (insert_interface V device_id relay code)
  unfolding insert_interface
  insert_interface-Counts device_id relay code = search counts_rules depth 30

  insert_interfaces-Counts :
      (payload : Value) (device_id : String) → Keeps Counts (insert_interfaces V payload device_id)
  unfolding insert_interfaces
  insert_interfaces-Counts payload device_id =
      search (counts_rules, insert_interface-Counts) depth 20

  new_device_id-Counts : Keeps Counts (new_device_id V)
  unfolding new_device_id
  new_device_id-Counts = search (counts_rules, only_cell-Counts) depth 20

  pub join-Counts : (payload : Value) → Keeps Counts (join V payload)
  unfolding join
  join-Counts payload =
      search (counts_rules, new_device_id-Counts, insert_interfaces-Counts) depth 20

  add_columns-Counts : (columns i missing : ℕ) → Keeps Counts (add_columns V columns i missing)
  unfolding add_columns
  add_columns-Counts columns i zero = search counts_rules depth 8
  add_columns-Counts columns i (suc missing) =
      Keeps-bind Counts-preorder (execute V _) _ (execute-Counts _)
        (λ rows. add_columns-Counts columns (i + 1) missing)

  insert_service-Counts :
      (columns : ℕ) (device_id : String) (service : Value)
      → Keeps Counts (insert_service V columns device_id service)
  unfolding insert_service
  insert_service-Counts columns device_id service =
      search (counts_rules, add_columns-Counts) depth 30

  insert_services-Counts :
      (payload : Value) (device_id : String) → Keeps Counts (insert_services V payload device_id)
  unfolding insert_services
  insert_services-Counts payload device_id =
      search (counts_rules, insert_service-Counts, only_cell-Counts) depth 30

  pub update-Counts : (payload : Value) → Keeps Counts (update V payload)
  unfolding update update_work
  update-Counts payload = search (counts_rules, insert_services-Counts) depth 30

  pub leave-Counts : (payload : Value) → Keeps Counts (leave V payload)
  unfolding leave leave_work
  leave-Counts payload = search counts_rules depth 30

  insert_requirement-Counts :
      (request_id : String) (requirement : Value)
      → Keeps Counts (insert_requirement V request_id requirement)
  unfolding insert_requirement
  insert_requirement-Counts request_id requirement = search counts_rules depth 30

  pub request-Counts : (payload : Value) → Keeps Counts (request V payload)
  unfolding request request_work
  request-Counts payload =
      search (counts_rules, insert_requirement-Counts, only_cell-Counts) depth 50

  -- A request of a session.
  pub data Call : Type 0 where
    joining updating leaving requesting : Value → Call

  abbrev pub handler : Call → Act V Reply
  handler (joining payload) = join V payload
  handler (updating payload) = update V payload
  handler (leaving payload) = leave V payload
  handler (requesting payload) = request V payload

  -- The requests of a session, one after another; an exception ends its own request only.
  abbrev pub session : List Call → Resolver V.State → Resolver V.State
  session [] s = s
  session (call ∷ calls) s = session calls (handler call s).1

  handler-Counts : (call : Call) → Keeps Counts (handler call)
  handler-Counts (joining payload) = join-Counts payload
  handler-Counts (updating payload) = update-Counts payload
  handler-Counts (leaving payload) = leave-Counts payload
  handler-Counts (requesting payload) = request-Counts payload

  session-Counts : (calls : List Call) (s : Resolver V.State) → Counts s (session calls s)
  session-Counts [] s = omega arith
  session-Counts (call ∷ calls) s =
      omega (arith, (handler-Counts call).at s, session-Counts calls (handler call s).1)

  -- Of two IDs that `genServiceID` makes for services of the known types, the second after any
  -- requests that the service has handled in between, the two are different.
  pub gen_service_id_distinct :
      (t u : ServiceType) (calls : List Call) (s : Resolver V.State)
      → let (first, s1) = gen_service_id V (str (type_name t)) s in
        let (second, s2) = gen_service_id V (str (type_name u)) (session calls s1) in first ≢ second
  unfolding gen_service_id modify gets pure value_or ◌>>=◌
  gen_service_id_distinct t u calls s same =
      let grown = session-Counts calls (record s { manage_num = s.manage_num + 1 }) in
      let equal = service_id_unique t u (s.manage_num + 1) _ (ap value_or same) in
      absurd (omega arith)
