-- ===== src/Socket/Answers.antt =====
-- What the handlers of the socketIO service emit.
use versatile.Base.{String, ◌≡◌, refl, sym, ◌∙◌, ◌⊎◌, inl, inr, false, List, [], ◌∷◌, ◌++◌}
use versatile.Py.Value.{Result, ok, err, Value}
use versatile.Py.Exec.{modify, gets, try_except, handle, continue, ◌>>=◌, ◌>>◌}
use versatile.Py.Exec.Frame.{
  Keeps, IsPreorder, keeps_rules, Keeps-bind, Keeps-gets, Keeps-if, Keeps-pure, Keeps-modify,
}
use versatile.Resolver.{Server}
use versatile.Socket.{
  Emission, SocketResolver, Act, connect, execute, commit, only_cell, emit, error_message,
}
use versatile.Socket.ServiceId.{gen_service_id}
use versatile.Socket.Join.{
  new_device_id, start_session, insert_neighbor, insert_interface, join_work, join_message,
  join_with, join,
}
use versatile.Socket.Leave.{leave_work, leave}

abbrev pub to_client : String → Value → Emission
to_client event message = record { event = event; message = message; broadcast = false }

module _ (V : Server) where
  -- Nothing is emitted.
  abbrev pub Silent : SocketResolver V.State → SocketResolver V.State → Type 0
  Silent s t = t.emitted ≡ s.emitted

  pub Silent-preorder : IsPreorder Silent
  Silent-preorder = record { same = λ s. refl; chain = λ s t u p q. q ∙ p }

  pub connect-Silent : Keeps Silent (connect V)
  unfolding connect
  connect-Silent = record { at = λ s. refl }

  pub execute-Silent : (query : String) → Keeps Silent (execute V query)
  unfolding execute
  execute-Silent query = record { at = λ s. refl }

  pub commit-Silent : Keeps Silent (commit V)
  unfolding commit
  commit-Silent = record { at = λ s. refl }

  pub gen_service_id-Silent : (service : Value) → Keeps Silent (gen_service_id V service)
  unfolding gen_service_id modify gets ◌>>=◌
  gen_service_id-Silent service = record { at = λ s. refl }

  pub ruleset silent_rules = (
    keeps_rules, Silent-preorder, connect-Silent, execute-Silent, commit-Silent,
    gen_service_id-Silent,
  )

  pub only_cell-Silent : (rows : List Value) → Keeps Silent (only_cell V rows)
  unfolding only_cell
  only_cell-Silent rows = search silent_rules depth 12

  leave_work-Silent : (content : Value) → Keeps Silent (leave_work V content)
  unfolding leave_work
  leave_work-Silent content = search silent_rules depth 30

  new_device_id-Silent : Keeps Silent (new_device_id V)
  unfolding new_device_id
  new_device_id-Silent = search (silent_rules, only_cell-Silent) depth 20

  start_session-Silent : (token device_id : String) → Keeps Silent (start_session V token device_id)
  unfolding start_session
  start_session-Silent token device_id =
      Keeps-bind Silent-preorder _ _ (Keeps-gets Silent-preorder _)
        (λ session. Keeps-if _ _ _ (Keeps-pure Silent-preorder _) (Keeps-modify _ (λ s. refl)))

  insert_neighbor-Silent :
      (device_id : String) (neighbor : Value) → Keeps Silent (insert_neighbor V device_id neighbor)
  unfolding insert_neighbor
  insert_neighbor-Silent device_id neighbor = search silent_rules depth 30

  insert_interface-Silent :
      (device_id relay : String) (code : Value)
      → Keeps Silent (insert_interface V device_id relay code)
  unfolding insert_interface
  insert_interface-Silent device_id relay code = search silent_rules depth 30

  join_work-Silent :
      (token : String) (content : Value) (device_id : String)
      → Keeps Silent (join_work V token content device_id)
  unfolding join_work
  join_work-Silent token content device_id =
      search (silent_rules, start_session-Silent, insert_neighbor-Silent, insert_interface-Silent)
        depth 40

  -- `try:` silent work and one emission; `except:` another.
  abbrev guarded : Act V Unit → String → Value → Value → Act V Unit
  guarded work event good bad = try_except (do work; emit V event good) (λ e. emit V event bad)

  -- It returns, and emits one of the two.
  abbrev OneOf :
      Result Unit × SocketResolver V.State
      → SocketResolver V.State
      → String
      → Value
      → Value
      → Type 0
  OneOf (r, s') s event good bad =
      (r ≡ ok tt)
      × ((s'.emitted ≡ s.emitted ++ to_client event good ∷ [])
          ⊎ (s'.emitted ≡ s.emitted ++ to_client event bad ∷ []))

  guarded-OneOf :
      (work : Act V Unit) (event : String) (good bad : Value) (s : SocketResolver V.State)
      → Keeps Silent work
      → OneOf (guarded work event good bad s) s event good bad
  unfolding try_except emit ◌>>=◌
  guarded-OneOf work event good bad s k = either_way (work s) (k.at s)
    where
      either_way :
          (out : Result Unit × SocketResolver V.State)
          → Silent s out.1
          → OneOf
              (handle
                (continue out.0 (λ u. emit V event good) out.1).0
                (λ e. emit V event bad)
                (continue out.0 (λ u. emit V event good) out.1).1)
              s
              event
              good
              bad
      either_way (ok u, s') same = (refl, inl (rw same refl))
      either_way (err e, s') same = (refl, inr (rw same refl))

  -- Whatever the message holds and the database does, `Leave` returns and emits one answer 'Lack', of
  -- error 0 or of error 1, and nothing else.
  pub leave_answers :
      (content : Value) (s : SocketResolver V.State)
      → let (r, s') = leave V content s in
        (r ≡ ok tt)
        × ((s'.emitted ≡ s.emitted ++ to_client "Lack" (error_message 0) ∷ [])
            ⊎ (s'.emitted ≡ s.emitted ++ to_client "Lack" (error_message 1) ∷ []))
  unfolding leave
  leave_answers content s =
      guarded-OneOf (leave_work V content) "Lack" (error_message 0) (error_message 1) s
        (leave_work-Silent content)

  -- The ID that is chosen, or the one from before that.
  abbrev pub chosen : Result String → String
  chosen (ok device_id) = device_id
  chosen (err e) = "-1"

  -- Whatever the message holds and the database does, `Join` returns and emits one answer 'Jack', of
  -- error 0 or of error 1, with the chosen ID, or with -1 if choosing it failed, and nothing else.
  pub join_answers :
      (token : String) (content : Value) (s : SocketResolver V.State)
      → let (r, s') = join V token content s in
        let id = chosen (new_device_id V s).0 in
        (r ≡ ok tt)
        × ((s'.emitted ≡ s.emitted ++ to_client "Jack" (join_message 0 id) ∷ [])
            ⊎ (s'.emitted ≡ s.emitted ++ to_client "Jack" (join_message 1 id) ∷ []))
  unfolding join emit
  join_answers token content s = with_id (new_device_id V s) (new_device_id-Silent.at s)
    where
      with_id :
          (out : Result String × SocketResolver V.State)
          → Silent s out.1
          → OneOf
              (join_with V token content out.0 out.1)
              s
              "Jack"
              (join_message 0 (chosen out.0))
              (join_message 1 (chosen out.0))
      with_id (ok device_id, s') same =
          let (returned, one) =
            guarded-OneOf (join_work V token content device_id) "Jack" (join_message 0 device_id)
              (join_message 1 device_id) s' (join_work-Silent token content device_id) in
          (returned, rw (sym same) one)
      with_id (err e, s') same = (refl, inr (rw same refl))
