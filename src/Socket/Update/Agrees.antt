-- ===== src/Socket/Update/Agrees.antt =====
-- `Update` of the socketIO service against that of the Flask service.
use mathlib.Core.List.{Forall₂}
use versatile.Base.{
  ℕ, zero, suc, ◌+◌, String, ◌≡◌, refl, ap, ◌⊎◌, inl, inr, List, [], ◌∷◌, ◌++◌, length, ltb,
}
use versatile.Base.Dict.{Dict}
use versatile.Py.Value.{
  Result, ok, err, Value, null, str, dict, list_of, Fields, field_of, get, as_text, iterate,
  to_list-of_list,
}
use versatile.Py.Text.{repr_int, to_str}
use versatile.Py.Exec.{pure, lift, traverse, try_except, handle, ◌>>=◌, ◌>>◌}
use versatile.Resolver as Flask
use versatile.Resolver.{Server, Resolver, Reply}
use versatile.Resolver.ServiceId.Unique.{ServiceType, type_name}
use versatile.Resolver.Update.{as_count, column_number, error_reply}
use versatile.Resolver.Update as FlaskUpdate
use versatile.Socket.{SocketResolver, Emission, Act, commit, emit, error_message}
use versatile.Socket.Answers.{to_client}
use versatile.Socket.Mirror.{
  beside, Related, Same, Raises, Same-Raises, Same-pure, Same-lift, Same-connect, Same-execute,
  Same-commit, Related-bind, Same-traverse, Related-bind_left, Related-reads, Related-lifts,
  Related-lifts_left, Related-if, Related-gen_service_id, Same-only_cell,
}
use versatile.Socket.Update.{add_columns, insert_service, insert_services, update_work, update}

-- A service of a type that both have.
abbrev pub IsOfType : Value → ServiceType → Type 0
IsOfType v k = get v "serviceType" ≡ ok (str (type_name k))

module _ (V : Server) (session : Dict String) (emitted : List Emission) where
  add_columns-Same :
      (columns i missing : ℕ)
      → Related V session emitted
          (Same V session emitted)
          (add_columns V columns i missing)
          (FlaskUpdate.add_columns V columns i missing)
  unfolding add_columns FlaskUpdate.add_columns
  add_columns-Same columns i zero = Same-pure V session emitted tt
  add_columns-Same columns i (suc missing) =
      Related-bind V session emitted _ _ _ _ (Same-Raises V session emitted)
        (Same-execute V session emitted _) (λ _. add_columns-Same columns (i + 1) missing)

  -- The same statement of both, and what follows.
  Same-then :
      {A B : Type 0} {m : Act V A} {m' : Flask.Act V A} {f : A → Act V B} {f' : A → Flask.Act V B}
      → Related V session emitted (Same V session emitted) m m'
      → ((a : A) → Related V session emitted (Same V session emitted) (f a) (f' a))
      → Related V session emitted (Same V session emitted) (m >>= f) (m' >>= f')
  Same-then {m = m} {m' = m'} {f = f} {f' = f'} hm hf =
      Related-bind V session emitted m m' f f' (Same-Raises V session emitted) hm hf

  Same-texts :
      (items : List Value)
      → Related V session emitted
          (Same V session emitted)
          (traverse (λ v. lift (as_text v)) items)
          (traverse (λ v. lift (as_text v)) items)
  unfolding traverse
  Same-texts [] = Same-pure V session emitted []
  Same-texts (v ∷ items) =
      Same-then (Same-lift V session emitted _)
        (λ text. Same-then (Same-texts items) (λ texts. Same-pure V session emitted (text ∷ texts)))

  insert_service-Same :
      (columns : ℕ) (device : String) (v : Value) (k : ServiceType)
      → IsOfType v k
      → Related V session emitted
          (Same V session emitted)
          (insert_service V columns device v)
          (FlaskUpdate.insert_service V columns device v)
  unfolding insert_service FlaskUpdate.insert_service as_text to_str
  insert_service-Same columns device v k h =
      Related-lifts V session emitted _ (str (type_name k)) _ _ h (
        Related-gen_service_id V session emitted k _ _ (λ id.
          Same-then (Same-lift V session emitted _) (λ attributes.
            Same-then (Same-lift V session emitted _) (λ size.
              Same-then (add_columns-Same columns 0 _) (λ _.
                Same-then (Same-lift V session emitted _) (λ items.
                  Same-then (Same-texts items) (λ texts.
                    Related-reads V session emitted _ id _ _ refl (
                      Same-then (Same-lift V session emitted _)
                        (λ type_text. Same-execute V session emitted _)))))))))

  -- What the service then tells the client.
  abbrev pub told : ℕ → Resolver V.State → SocketResolver V.State
  told error t = record (beside V session emitted t) {
    emitted = emitted ++ to_client "Uack" (error_message error) ∷ [];
  }

  -- The two blocks up to the handlers of exceptions.
  abbrev Agree : Result Value × SocketResolver V.State → Result Reply × Resolver V.State → Type 0
  Agree x (err e, t) = x ≡ (err e, beside V session emitted t)
  Agree x (ok reply, t) =
      ((x ≡ (ok null, told 0 t)) × (reply ≡ error_reply 0))
      ⊎ ((x ≡ (ok (error_message 1), beside V session emitted t)) × (reply ≡ error_reply 1))

  -- The answers of the two services: the same error code, and the same number and database.
  abbrev pub Told : Result Value × SocketResolver V.State → Result Reply × Resolver V.State → Type 0
  Told x (r, t) =
      ((error : ℕ) × (r ≡ ok (error_reply error)) × (x ≡ (ok null, told error t)))
      ⊎ ((r ≡ ok (error_reply 1)) × (x ≡ (ok (error_message 1), beside V session emitted t)))

  Agree-Raises : Raises V session emitted Agree
  Agree-Raises e t = refl

  acknowledged :
      Related V session emitted Agree
        (do emit V "Uack" (error_message 0); pure null)
        (pure (error_reply 0))
  unfolding emit pure ◌>>=◌
  acknowledged = record { at = λ t. inl (refl, refl) }

  refused : Related V session emitted Agree (pure (error_message 1)) (pure (error_reply 1))
  unfolding pure
  refused = record { at = λ t. inr (refl, refl) }

  committed :
      Related V session emitted Agree
        (commit V >> (emit V "Uack" (error_message 0) >> pure null))
        (Flask.commit V >> pure (error_reply 0))
  committed =
      Related-bind V session emitted _ _ _ _ Agree-Raises (Same-commit V session emitted)
        (λ _. acknowledged)

  -- The same statement of both, and what follows.
  Agree-then :
      {A : Type 0} {m : Act V A} {m' : Flask.Act V A} {f : A → Act V Value}
      {f' : A → Flask.Act V Reply}
      → Related V session emitted (Same V session emitted) m m'
      → ((a : A) → Related V session emitted Agree (f a) (f' a))
      → Related V session emitted Agree (m >>= f) (m' >>= f')
  Agree-then {m = m} {m' = m'} {f = f} {f' = f'} hm hf =
      Related-bind V session emitted m m' f f' Agree-Raises hm hf

  Agree-then_left :
      {A B : Type 0} {m : Act V A} {m' : Flask.Act V A} (f : A → Act V B) (g : B → Act V Value)
      {f' : A → Flask.Act V Reply}
      → Related V session emitted (Same V session emitted) m m'
      → ((a : A) → Related V session emitted Agree (f a >>= g) (f' a))
      → Related V session emitted Agree ((m >>= f) >>= g) (m' >>= f')
  Agree-then_left {m = m} {m' = m'} f g {f' = f'} hm hf =
      Related-bind_left V session emitted m m' f g f' Agree-Raises hm hf

  module _ (fs : Fields) (values : List Value) (kinds : List ServiceType)
      (services : field_of "services" fs ≡ list_of values)
      (known : Forall₂ IsOfType values kinds) where
    services_agree :
        (device : String)
        → Related V session emitted Agree
            (do insert_services V (dict fs) device; emit V "Uack" (error_message 0); pure null)
            (FlaskUpdate.insert_services V (dict fs) device)
    unfolding insert_services FlaskUpdate.insert_services get iterate
    services_agree device =
        Related-lifts_left V session emitted _ (list_of values) _ _ _ (ap ok services) (
          Agree-then_left _ _ (Same-execute V session emitted _) (λ rows.
            Agree-then_left _ _ (Same-only_cell V session emitted rows) (λ cell.
              Agree-then_left _ _ (Same-lift V session emitted (as_count cell)) (λ columns.
                Related-lifts_left V session emitted _ values _ _ _ (ap ok (to_list-of_list values))
                  (Agree-then_left _ _
                    (Same-traverse V session emitted _ _ (insert_service-Same columns device) values
                      kinds known)
                    (λ _. committed))))))

    update_work-Agree :
        Related V session emitted Agree
          (update_work V (dict fs))
          (FlaskUpdate.update_work V (dict fs))
    unfolding update_work FlaskUpdate.update_work
    update_work-Agree = Agree-then (Same-connect V session emitted) (λ _.
        Agree-then (Same-lift V session emitted _) (λ v.
          Agree-then (Same-lift V session emitted _) (λ device.
            Agree-then (Same-execute V session emitted _) (λ rows.
              Related-if V session emitted (ltb 0 (length rows)) _ _ _ _
                (services_agree (repr_int device)) refused))))

    agree_after :
        (x : Result Value × SocketResolver V.State) (y : Result Reply × Resolver V.State)
        → Agree x y
        → Told
            (handle x.0 (λ e. do emit V "Uack" (error_message 1); pure null) x.1)
            (handle y.0 (λ e. pure (error_reply 1)) y.1)
    unfolding emit pure ◌>>=◌
    agree_after x (ok reply, t) (inl (same, stored)) = rw (same, stored) (inl (0, refl, refl))
    agree_after x (ok reply, t) (inr (same, absent)) = rw (same, absent) (inr (refl, refl))
    agree_after x (err e, t) same = rw same (inl (1, refl, refl))

    -- On a message with a list of services of the types that both know, in states with the same
    -- number and database, whatever the database does, `Update` leaves the same number and database
    -- as that of the Flask service, and the session as it is. It emits Uack with the error code that
    -- the Flask service answers, and returns None; or the Flask service answers error 1, and it
    -- returns error 1 and emits nothing.
    pub update_agrees :
        (t : Resolver V.State)
        → Told (update V (dict fs) (beside V session emitted t)) (FlaskUpdate.update V (dict fs) t)
    unfolding update FlaskUpdate.update try_except
    update_agrees t = agree_after _ _ (update_work-Agree.at t)
