-- ===== src/Socket/Update/Unknown.antt =====
-- `Update` of the socketIO service for a device that is not registered.
use versatile.Base.{String, ◌<>◌, ◌≡◌, refl, true, some, []}
use versatile.Base.Int.{ℤ}
use versatile.Py.Value.{ok, dict, Fields, field_of, get}
use versatile.Py.Text.{repr_int}
use versatile.Py.Text.Number.{to_int}
use versatile.Py.Exec.{try_except, ◌>>=◌}
use versatile.Resolver.{Server}
use versatile.Socket.{SocketResolver, connect, execute, error_message}
use versatile.Socket.Update.{update_work, update}

abbrev pub exists_query : ℤ → String
exists_query d = "SELECT dummyID from Device where deviceID='" <> repr_int d <> "'"

module _ (V : Server) where
  -- If the connection is accepted and the query for a device with a numeric ID finds no row, `Update`
  -- returns error 1, runs no other statement and emits nothing.
  pub update_unknown :
      (fs : Fields) (d : ℤ) (s : SocketResolver V.State) (db1 db2 : V.State)
      → to_int (field_of "deviceID" fs) ≡ ok d
      → V.connect s.db ≡ (true, db1)
      → V.execute (exists_query d) db1 ≡ (some [], db2)
      → update V (dict fs) s ≡ (ok (error_message 1), record s { db = db2 })
  unfolding update update_work connect execute get try_except ◌>>=◌
  update_unknown fs d s db1 db2 hd h1 h2 = rw (h1, hd) (rw h2 refl)
