-- ===== src/Resolver/Leave/Joined.antt =====
-- A device that leaves with the ID that `Join` gave it.
use versatile.Base.{ℕ, ◌+◌, String, ◌<>◌, ◌≡◌, true, some, List, [], ◌∷◌, if◌then◌else◌}
use versatile.Base.Int.{pos}
use versatile.Base.Decimal.{decimal}
use versatile.Py.Value.{ok, int, str, list_of, dict, Fields, field_of}
use versatile.Py.Text.{repr_int}
use versatile.Py.Text.Number.Printed.{to_int-decimal}
use versatile.Resolver.{Server, Resolver}
use versatile.Resolver.Update.{error_reply}
use versatile.Resolver.Join.{new_device_id}
use versatile.Resolver.Join.Identity.{largest_id_query, new_id}
use versatile.Resolver.Leave.{leave}
use versatile.Resolver.Leave.Statements.{transaction, leave_lem}

abbrev pub deletes : String → List String
deletes id =
    ("DELETE from Device where deviceID='" <> id <> "'")
    ∷ ("DELETE from Service where deviceID='" <> id <> "'")
    ∷ []

module _ (V : Server) where
  chosen_id :
      (max : ℕ) (joins : Resolver V.State) (db1 db2 : V.State) (id : String)
      → V.connect joins.db ≡ (true, db1)
      → V.execute largest_id_query db1 ≡ (some (list_of (int (pos max) ∷ []) ∷ []), db2)
      → (new_device_id V joins).0 ≡ ok id
      → id ≡ decimal (max + 1)
  chosen_id max joins db1 db2 id connects answers chosen =
      let chooses = new_id V max joins db1 db2 connects answers in cc

  -- If the database accepts the connection and its largest number of a device is some `max`, then Leave,
  -- in any state, of a message whose device is the ID that Join then chooses runs the two DELETE
  -- statements for exactly that text and the commit, up to the first failure, and answers error 0 if
  -- nothing failed and error 1 otherwise.
  pub leave_joined :
      (max : ℕ) (joins leaves : Resolver V.State) (db1 db2 : V.State) (id : String) (fs : Fields)
      → V.connect joins.db ≡ (true, db1)
      → V.execute largest_id_query db1 ≡ (some (list_of (int (pos max) ∷ []) ∷ []), db2)
      → (new_device_id V joins).0 ≡ ok id
      → field_of "deviceID" fs ≡ str id
      → let (all, db) = transaction V (deletes id) leaves.db in
        leave V (dict fs) leaves
        ≡ (ok (error_reply (if all then 0 else 1)), record leaves { db = db })
  unfolding repr_int
  leave_joined max joins leaves db1 db2 id fs connects answers chosen same =
      rw (chosen_id max joins db1 db2 id connects answers chosen) (
        leave_lem V fs (pos (max + 1)) leaves (
          rw (same, chosen_id max joins db1 db2 id connects answers chosen)
            (to_int-decimal (max + 1))))
