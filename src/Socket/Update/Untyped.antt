-- ===== src/Socket/Update/Untyped.antt =====
-- `Update` of the socketIO service with a service of the type 'ImageTransfer', whose branch of
-- `genServiceID` names a variable that does not exist.
use versatile.Base.{
  String, ◌≡◌, refl, ◌⊎◌, inl, inr, Bool, true, false, List, [], ◌∷◌, ◌++◌, ℕ, zero, suc, ◌+◌,
  Option, none, some, arith, length, ltb,
}
use versatile.Py.Value.{
  Error, name_error, Result, ok, err, Value, null, str, dict, list_of, Fields, field_of, get,
  iterate,
}
use versatile.Py.Exec.{pure, try_except, continue, handle, ◌>>=◌, ◌>>◌}
use versatile.Py.Exec.Frame.{Keeps, Keeps-bind}
use versatile.Py.Exec.Fails.{Fails, Fails-rest, Fails-first, Fails-lift, Fails-ok, Fails-traverse}
use versatile.Resolver.{Server}
use versatile.Socket.{SocketResolver, Act, connect, execute, emit, error_message}
use versatile.Socket.Update.Unknown.{exists_query, update_unknown}
use versatile.Base.Int.{ℤ}
use versatile.Py.Text.{repr_int}
use versatile.Py.Text.Number.{to_int}
use versatile.Socket.Answers.{
  to_client, Silent, silent_rules, only_cell-Silent, Silent-preorder, execute-Silent,
}
use versatile.Socket.ServiceId.{service_id, gen_service_id}
use versatile.Socket.Update.{add_columns, insert_service, insert_services, update_work, update}

module _ (V : Server) where
  add_columns-Silent : (columns i missing : ℕ) → Keeps (Silent V) (add_columns V columns i missing)
  unfolding add_columns
  add_columns-Silent columns i zero = search silent_rules depth 8
  add_columns-Silent columns i (suc missing) =
      Keeps-bind (Silent-preorder V) (execute V _) _ (execute-Silent V _)
        (λ rows. add_columns-Silent columns (i + 1) missing)

  insert_service-Silent :
      (columns : ℕ) (device_id : String) (service : Value)
      → Keeps (Silent V) (insert_service V columns device_id service)
  unfolding insert_service
  insert_service-Silent columns device_id service =
      search (silent_rules, add_columns-Silent) depth 40

  insert_services-Silent :
      (content : Value) (device_id : String)
      → Keeps (Silent V) (insert_services V content device_id)
  unfolding insert_services
  insert_services-Silent content device_id =
      search (silent_rules, insert_service-Silent, only_cell-Silent) depth 40

  gen_service_id-Fails : Fails (gen_service_id V (str "ImageTransfer"))
  unfolding gen_service_id service_id
  gen_service_id-Fails = Fails-rest _ _ (λ u. Fails-rest _ _ (λ n. Fails-lift _ name_error refl))

  -- The device of the message is a number, and the database, which accepts the connection, has no row
  -- of it.
  abbrev pub Unknown : Fields → SocketResolver V.State → Type 0
  Unknown content s =
      (d : ℤ) × (db1 : V.State) × (db2 : V.State) × (to_int (field_of "deviceID" content) ≡ ok d)
      × (V.connect s.db ≡ (true, db1))
      × (V.execute (exists_query d) db1 ≡ (some [], db2))

  abbrev Raises : {A : Type 0} → Result A × SocketResolver V.State → SocketResolver V.State → Type 0
  Raises (r, s') s = Silent V s s' × (e : Error) × (r ≡ err e)

  -- Nothing is emitted, and the block raises, or returns error 1 for an unknown device.
  abbrev Rejects : Fields → Result Value × SocketResolver V.State → SocketResolver V.State → Type 0
  Rejects content (r, s') s =
      Silent V s s'
      × (((e : Error) × (r ≡ err e)) ⊎ ((r ≡ ok (error_message 1)) × Unknown content s))

  Raises-first :
      {A B : Type 0} (m : Act V A) (f : A → Act V B) (s : SocketResolver V.State)
      → Keeps (Silent V) m
      → Fails m
      → Raises ((m >>= f) s) s
  unfolding ◌>>=◌
  Raises-first {A = A} {B = B} m f s k fails = let (e, h) = fails.at s in raised (m s) (k.at s) e h
    where
      raised :
          (out : Result A × SocketResolver V.State)
          → Silent V s out.1
          → (e : Error) → out.0 ≡ err e
          → Raises (continue out.0 f out.1) s
      raised (ok a, s') same e h = cc
      raised (err e', s') same e h = (same, e', refl)

  some_rows : (row : Value) (rows : List Value) → ltb 0 (length (row ∷ rows)) ≡ true
  some_rows row rows = ground arith

  module _ (service : Fields) (rest : List Value) (content : Fields)
      (its_type : field_of "serviceType" service ≡ str "ImageTransfer")
      (its_services : field_of "services" content ≡ list_of (dict service ∷ rest)) where
    insert_service-Fails :
        (columns : ℕ) (device_id : String)
        → Fails (insert_service V columns device_id (dict service))
    unfolding insert_service get
    insert_service-Fails columns device_id =
        rw its_type (Fails-ok _ _ (Fails-first _ _ gen_service_id-Fails))

    insert_services-Fails :
        (device_id : String) → Fails (insert_services V (dict content) device_id)
    unfolding insert_services get iterate
    insert_services-Fails device_id = rw its_services (
        Fails-ok _ _ (
          Fails-rest _ _ λ rows. Fails-rest _ _ λ cell. Fails-rest _ _ λ columns.
            Fails-ok _ _
              (Fails-first _ _ (Fails-traverse _ _ _ (insert_service-Fails columns device_id)))))

    looked_up :
        (s : SocketResolver V.State) (d : ℤ) (db1 db2 : V.State) (out : Option (List Value))
        → to_int (field_of "deviceID" content) ≡ ok d
        → V.connect s.db ≡ (true, db1)
        → V.execute (exists_query d) db1 ≡ (out, db2)
        → Rejects content (update_work V (dict content) s) s
    unfolding update_work connect execute get ◌>>=◌
    looked_up s d db1 db2 none hd h1 h2 = rw (h1, hd) (rw h2 (refl, inl (_, refl)))
    looked_up s d db1 db2 (some []) hd h1 h2 =
        rw (h1, hd) (rw h2 (refl, inr (refl, (d, db1, db2, refl, refl, h2))))
    looked_up s d db1 db2 (some (row ∷ rows)) hd h1 h2 =
        let (same, e, raised) =
          Raises-first (insert_services V (dict content) (repr_int d))
            (λ u. emit V "Uack" (error_message 0) >> pure null) (record s { db = db2 })
            (insert_services-Silent (dict content) _) (insert_services-Fails _) in
        rw (h1, hd) (rw (h2, some_rows row rows) (same, inl (e, raised)))

    numbered :
        (s : SocketResolver V.State) (db1 : V.State) (r : Result ℤ)
        → to_int (field_of "deviceID" content) ≡ r
        → V.connect s.db ≡ (true, db1)
        → Rejects content (update_work V (dict content) s) s
    unfolding update_work connect get ◌>>=◌
    numbered s db1 (err e) hd h1 = rw (h1, hd) (refl, inl (e, refl))
    numbered s db1 (ok d) hd h1 = looked_up s d db1 _ _ hd h1 refl

    connected :
        (s : SocketResolver V.State) (b : Bool) (db1 : V.State)
        → V.connect s.db ≡ (b, db1)
        → Rejects content (update_work V (dict content) s) s
    unfolding update_work connect ◌>>=◌
    connected s false db1 h1 = rw h1 (refl, inl (_, refl))
    connected s true db1 h1 = numbered s db1 _ refl h1

    -- The update of an unknown device is not acknowledged at all.
    returns_null :
        (s s' : SocketResolver V.State)
        → update V (dict content) s ≡ (ok null, s')
        → ¬ Unknown content s
    returns_null s s' h (d, db1, db2, hd, h1, h2) =
        let silent = update_unknown V content d s db1 db2 hd h1 h2 in cc

    after_error :
        (e : Error) (s s' : SocketResolver V.State)
        → update_work V (dict content) s ≡ (err e, s')
        → update V (dict content) s ≡ (emit V "Uack" (error_message 1) >> pure null) s'
    unfolding update try_except
    after_error e s s' h = rw h refl

    -- An update of the socketIO service whose first service has the type ImageTransfer is never
    -- acknowledged with error 0: Uack with error 1 is emitted and nothing else, or, if the
    -- database accepts the connection, the device has a number and the database finds no row of
    -- it, and only then, nothing is emitted and error 1 is returned.
    pub update_rejects :
        (s : SocketResolver V.State)
        → let (r, s') = update V (dict content) s in
          ((s'.emitted ≡ s.emitted ++ to_client "Uack" (error_message 1) ∷ [])
            × (r ≡ ok null)
            × ¬ Unknown content s)
          ⊎ ((s'.emitted ≡ s.emitted) × (r ≡ ok (error_message 1)) × Unknown content s)
    unfolding update try_except emit ◌>>=◌
    update_rejects s = answered (update_work V (dict content) s) refl (connected s _ _ refl)
      where
        answered :
            (out : Result Value × SocketResolver V.State)
            → update_work V (dict content) s ≡ out
            → Rejects content out s
            → let (r, s') =
                handle out.0 (λ e. emit V "Uack" (error_message 1) >> pure null) out.1 in
              ((s'.emitted ≡ s.emitted ++ to_client "Uack" (error_message 1) ∷ [])
                × (r ≡ ok null)
                × ¬ Unknown content s)
              ⊎ ((s'.emitted ≡ s.emitted) × (r ≡ ok (error_message 1)) × Unknown content s)
        answered (ok v, s') eq (same, inl (e, h)) = cc
        answered (ok v, s') eq (same, inr (h, unknown)) = inr (same, h, unknown)
        answered (err e, s') eq (same, how) =
            inl (rw same refl, refl, returns_null s _ (after_error e s s' eq))
