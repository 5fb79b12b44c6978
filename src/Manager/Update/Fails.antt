-- ===== src/Manager/Update/Fails.antt =====
-- `update`, whose second check asks the database with an empty query.
use versatile.Base.{true, String, ◌<>◌, ◌≡◌, refl, [], ◌∷◌, ◌++◌}
use versatile.Py.Value.{
  ok, key_error, field_of, Value, dict, Fields, end, get, find, subscript, number,
}
use versatile.Py.Exec.{◌>>=◌}
use versatile.Py.Exec.Fails.{Fails, Fails-rest, Fails-first}
use versatile.World.{World}
use versatile.Manager.{Manager, dict_of}
use versatile.Manager.Database.{db_select, select_rows, db_proc, send_db_query}
use versatile.Manager.Update.{update_work, update}
use versatile.Manager.Quiet.{update_work-Quiet}
use versatile.Manager.Answers.{published-answer_failed}

module _ (W : World) where
  send_db_query-Fails : Fails (send_db_query W (dict end) db_select true)
  unfolding send_db_query db_proc select_rows subscript find ◌>>=◌
  send_db_query-Fails = record { at = λ s. (key_error, refl) }

  update_work-Fails :
      (temp_id : String) (payload relay update_id : Value)
      → Fails (update_work W temp_id payload relay update_id)
  unfolding update_work
  update_work-Fails temp_id payload relay update_id =
      search (Fails-rest, Fails-first, send_db_query-Fails) depth 12

  -- Whatever the database holds, and whatever payload with fields comes, `update` returns, and the
  -- one message that it publishes is the error reply.
  pub update_fails :
      (temp_id : String) (fs : Fields) (s : Manager W.State)
      → let (r, s') = update W temp_id (dict fs) s in
        (r ≡ ok tt)
        × (s'.published
            ≡ s.published
              ++ (
                "/configuration/update_ack/" <> temp_id,
                dict_of (
                    ("error", number 1)
                    ∷ ("updateID", field_of "updateID" fs)
                    ∷ ("relay", field_of "relay" fs)
                    ∷ []),
              )
                ∷ [])
  unfolding update get ◌>>=◌
  update_fails temp_id fs s =
      let relay = field_of "relay" fs in
      let update_id = field_of "updateID" fs in
      published-answer_failed W _ _ _ s (update_work-Quiet W temp_id (dict fs) relay update_id)
        (update_work-Fails temp_id (dict fs) relay update_id)
