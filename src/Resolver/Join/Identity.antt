-- ===== src/Resolver/Join/Identity.antt =====
-- The ID that `Join` of the Flask service answers.
use versatile.Base.{ℕ, ◌+◌, String, ◌≡◌, refl, ap, Bool, true, false, some, if◌then◌else◌, [], ◌∷◌}
use versatile.Base.Int.{pos}
use versatile.Base.Decimal.{decimal}
use versatile.Py.Value.{name_error, Result, ok, err, Value, int, list_of, first}
use versatile.Py.Text.{repr_int}
use versatile.Py.Text.Number.{to_int}
use versatile.Py.Exec.{pure, raise, try_except, continue, handle, ◌>>=◌}
use versatile.Resolver.{Server, Resolver, Reply, connect, execute, only_cell}
use versatile.Resolver.Join.{next_id, new_device_id, insert_interfaces, id_reply, join}

abbrev pub largest_id_query : String
largest_id_query = "SELECT MAX(CAST(deviceID as  SIGNED)) From Device"

module _ (V : Server) where
  -- The second part of the handler answers the ID that it is given, however far it gets.
  replies_id :
      (out : Result Unit × Resolver V.State) (id : String)
      → (e : ℕ) × ((handle
            (continue out.0 (λ _. pure (id_reply V 0 id)) out.1).0
            (λ e. pure (id_reply V 1 id))
            (continue out.0 (λ _. pure (id_reply V 0 id)) out.1).1).0
          ≡ ok (id_reply V e id))
  unfolding pure
  replies_id (ok u, s) id = (0, refl)
  replies_id (err e, s) id = (1, refl)

  pub new_id :
      (n : ℕ) (s : Resolver V.State) (db1 db2 : V.State)
      → V.connect s.db ≡ (true, db1)
      → V.execute largest_id_query db1 ≡ (some (list_of (int (pos n) ∷ []) ∷ []), db2)
      → new_device_id V s ≡ (ok (decimal (n + 1)), record s { db = db2 })
  unfolding new_device_id connect execute only_cell first next_id to_int repr_int ◌>>=◌
  new_id n s db1 db2 h1 h2 = rw (h1, h2) refl

  join_answers_next_id :
      (payload : Value) (n : ℕ) (s : Resolver V.State) (db1 db2 : V.State)
      → V.connect s.db ≡ (true, db1)
      → V.execute largest_id_query db1 ≡ (some (list_of (int (pos n) ∷ []) ∷ []), db2)
      → (error : ℕ) × ((join V payload s).0 ≡ ok (id_reply V error (decimal (n + 1))))
  unfolding join try_except ◌>>=◌
  join_answers_next_id payload n s db1 db2 h1 h2 = rw (new_id n s db1 db2 h1 h2) (
      replies_id (insert_interfaces V payload (decimal (n + 1)) (record s { db = db2 }))
        (decimal (n + 1)))

  join_unbound :
      (payload : Value) (s : Resolver V.State) (db : V.State)
      → V.connect s.db ≡ (false, db)
      → join V payload s ≡ (err name_error, record s { db = db })
  unfolding join new_device_id connect try_except raise ◌>>=◌
  join_unbound payload s db h = rw h refl

  -- If the largest number of a device is `n` in the database that a connection gives, then `Join`,
  -- whatever the payload is and whether or not the rows are stored, answers the ID `n + 1` with some
  -- error code if the connection is accepted; if it is refused, its handler of exceptions raises
  -- NameError, since it names `deviceID`, which has no value yet.
  pub join_replies :
      (payload : Value) (n : ℕ) (s : Resolver V.State) (accepted : Bool) (db1 db2 : V.State)
      → V.connect s.db ≡ (accepted, db1)
      → V.execute largest_id_query db1 ≡ (some (list_of (int (pos n) ∷ []) ∷ []), db2)
      → (error : ℕ) × ((join V payload s).0
          ≡ (if accepted then ok (id_reply V error (decimal (n + 1))) else err name_error))
  join_replies payload n s true db1 db2 h1 h2 = join_answers_next_id payload n s db1 db2 h1 h2
  join_replies payload n s false db1 db2 h1 h2 =
      (1, ap (λ (r : Result Reply × Resolver V.State). r.0) (join_unbound payload s db1 h1))
