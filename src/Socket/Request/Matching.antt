-- ===== src/Socket/Request/Matching.antt =====
-- What `Request` of the socketIO service emits.
use mathlib.Core.List.{append_assoc, append-nil}
use versatile.Base.{String, ◌≡◌, refl, ◌⊎◌, inl, inr, true, List, [], ◌∷◌, ◌++◌, map}
use versatile.Py.Value.{Result, ok, err, Value}
use versatile.Py.Exec.{traverse, try_except, continue, ◌>>=◌, ◌>>◌}
use versatile.Py.Exec.Frame.{Keeps}
use versatile.Resolver.{Server}
use versatile.Socket.{Emission, SocketResolver, emit, emit_all, error_message}
use versatile.Socket.Answers.{to_client, Silent, silent_rules, only_cell-Silent}
use versatile.Socket.Request.{matching, insert_requirement, request_work, request}

abbrev pub to_all : String → Value → Emission
to_all event message = record { event = event; message = message; broadcast = true }

module _ (V : Server) where
  insert_requirement-Silent :
      (request_id : String) (requirement : Value)
      → Keeps (Silent V) (insert_requirement V request_id requirement)
  unfolding insert_requirement
  insert_requirement-Silent request_id requirement = search silent_rules depth 30

  request_work-Silent : (content : Value) → Keeps (Silent V) (request_work V content)
  unfolding request_work
  request_work-Silent content =
      search (silent_rules, insert_requirement-Silent, only_cell-Silent) depth 50

  -- The loop returns, and emits the messages to all clients, in order.
  pub emitted_all :
      (event : String) (messages : List Value) (s : SocketResolver V.State)
      → (us : List Unit) × (traverse (emit_all V event) messages s
          ≡ (ok us, record s { emitted = s.emitted ++ map (to_all event) messages }))
  unfolding traverse emit_all ◌>>=◌
  emitted_all event [] s = ([], rw (append-nil s.emitted) refl)
  emitted_all event (m ∷ ms) s =
      let s1 = record s { emitted = s.emitted ++ to_all event m ∷ [] } in
      let (us, h) = emitted_all event ms s1 in
      (tt ∷ us, rw (h, append_assoc s.emitted (to_all event m ∷ []) (map (to_all event) ms)) refl)

  abbrev RequestEmits : Result Unit × SocketResolver V.State → SocketResolver V.State → Type 0
  RequestEmits (r, s') s =
      (r ≡ ok tt)
      × (((service_type : Value) × (s'.emitted
              ≡ s.emitted
                ++ (map (to_all "MatchingRequest") (matching service_type)
                    ++ to_client "Rack" (error_message 0) ∷ [])))
          ⊎ (s'.emitted ≡ s.emitted ++ to_client "Rack" (error_message 1) ∷ []))

  -- Whatever the message holds and the database does, `Request` returns, and emits either the fixed
  -- matching results of a service type to all clients and then 'Rack' with error 0 to its own, or only
  -- 'Rack' with error 1.
  pub request_answers :
      (content : Value) (s : SocketResolver V.State) → RequestEmits (request V content s) s
  unfolding request emit try_except ◌>>=◌
  request_answers content s = after (request_work V content s) ((request_work-Silent content).at s)
    where
      after :
          (out : Result Value × SocketResolver V.State)
          → Silent V s out.1
          → RequestEmits
              (try_except
                (λ s'.
                  continue out.0
                    (λ service_type.
                      traverse (emit_all V "MatchingRequest") (matching service_type)
                      >> emit V "Rack" (error_message 0))
                    out.1)
                (λ e. emit V "Rack" (error_message 1))
                s)
              s
      after (ok t, s') same =
          let (us, h) = emitted_all "MatchingRequest" (matching t) s' in
          rw h (refl, inl (t, rw same (append_assoc s.emitted _ _)))
      after (err e, s') same = (refl, inr (rw same refl))
