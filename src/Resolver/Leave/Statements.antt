-- ===== src/Resolver/Leave/Statements.antt =====
-- What `Leave` of the Flask service does to the database.
use versatile.Base.{
  String, ◌<>◌, ◌≡◌, refl, Bool, true, false, Option, none, some, List, [], ◌∷◌, if◌then◌else◌,
}
use versatile.Base.Int.{ℤ}
use versatile.Py.Value.{Result, ok, Value, dict, Fields, field_of, get}
use versatile.Py.Text.{repr_int}
use versatile.Py.Text.Number.{to_int}
use versatile.Py.Exec.{pure, try_except, continue, handle, ◌>>=◌, ◌>>◌}
use versatile.Resolver.{Server, Resolver, Act, Reply, connect, execute, commit, done, rows_or_error}
use versatile.Resolver.Update.{error_reply}
use versatile.Resolver.Leave.{leave_work, leave}

module _ (V : Server) where
  -- The statements in order, up to the first that fails, and then the commit: whether all went
  -- through, and the database after them.
  abbrev either_way : Option (List Value) → V.State → Bool × V.State → Bool × V.State
  either_way none db rest = (false, db)
  either_way (some rows) db rest = rest

  abbrev pub run_all : List String → V.State → Bool × V.State
  run_all [] db = V.commit db
  run_all (query ∷ queries) db =
      let (rows, db) = V.execute query db in
      let rest = run_all queries db in either_way rows db rest

  abbrev run_connected : List String → Bool × V.State → Bool × V.State
  run_connected queries (false, db) = (false, db)
  run_connected queries (true, db) = run_all queries db

  -- On a new connection.
  abbrev pub transaction : List String → V.State → Bool × V.State
  transaction queries db = run_connected queries (V.connect db)

  abbrev second : ℤ → String
  second d = "DELETE from Service where deviceID='" <> repr_int d <> "'"

  abbrev pub leave_statements : ℤ → List String
  leave_statements d = ("DELETE from Device where deviceID='" <> repr_int d <> "'") ∷ second d ∷ []

  abbrev Replies : Result Reply × Resolver V.State → Resolver V.State → Bool × V.State → Type 0
  Replies (r, s') s (all, db) =
      handle r (λ e. pure (error_reply 1)) s'
      ≡ (ok (error_reply (if all then 0 else 1)), record s { db = db })

  Replies-commit :
      (s : Resolver V.State) → Replies ((commit V >> pure (error_reply 0)) s) s (V.commit s.db)
  unfolding commit ◌>>=◌ pure
  Replies-commit s = done-Replies (V.commit s.db)
    where
      done-Replies :
          (out : Bool × V.State)
          → Replies
              (continue (done V out.0) (λ _. pure (error_reply 0)) (record s { db = out.1 }))
              s
              out
      done-Replies (true, db) = refl
      done-Replies (false, db) = refl

  Replies-execute :
      (query : String) (queries : List String) (m : Act V Reply) (s : Resolver V.State)
      → ((s : Resolver V.State) → Replies (m s) s (run_all queries s.db))
      → Replies ((execute V query >> m) s) s (run_all (query ∷ queries) s.db)
  unfolding execute ◌>>=◌ pure
  Replies-execute query queries m s h = rows-Replies (V.execute query s.db)
    where
      rows-Replies :
          (out : Option (List Value) × V.State)
          → Replies
              (continue (rows_or_error V out.0) (λ _. m) (record s { db = out.1 }))
              s
              (either_way out.0 out.1 (run_all queries out.1))
      rows-Replies (none, db) = refl
      rows-Replies (some rows, db) = h (record s { db = db })

  Replies-connect :
      (queries : List String) (m : Act V Reply) (s : Resolver V.State)
      → ((s : Resolver V.State) → Replies (m s) s (run_all queries s.db))
      → Replies ((connect V >> m) s) s (transaction queries s.db)
  unfolding connect ◌>>=◌ pure
  Replies-connect queries m s h = connected-Replies (V.connect s.db)
    where
      connected-Replies :
          (out : Bool × V.State)
          → Replies
              (continue (done V out.0) (λ _. m) (record s { db = out.1 }))
              s
              (run_connected queries out)
      connected-Replies (true, db) = h (record s { db = db })
      connected-Replies (false, db) = refl

  -- `Leave` of a device with a numeric ID runs the two DELETE statements and the commit, stops at
  -- the first that fails, and answers error 0 if none did and error 1 otherwise.
  pub leave_lem :
      (fs : Fields) (d : ℤ) (s : Resolver V.State)
      → to_int (field_of "deviceID" fs) ≡ ok d
      → let (all, db) = transaction (leave_statements d) s.db in
        leave V (dict fs) s ≡ (ok (error_reply (if all then 0 else 1)), record s { db = db })
  unfolding leave leave_work get try_except ◌>>=◌
  leave_lem fs d s h = rw h (
      Replies-connect (leave_statements d) _ s (λ s.
        Replies-execute _ (second d ∷ []) _ s
          (λ s. Replies-execute (second d) [] _ s Replies-commit)))
