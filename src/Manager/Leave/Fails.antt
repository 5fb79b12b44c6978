-- ===== src/Manager/Leave/Fails.antt =====
-- `leave`, on a `db_proc` that has no branch for `db_delete` and returns `None`.
use versatile.Base.{String, ◌<>◌, ◌≡◌, refl, ◌∙◌, [], ◌∷◌, ◌++◌}
use versatile.Py.Value.{
  Error, Result, ok, err, attribute_error, field_of, Value, dict, Fields, get, number, as_text,
}
use versatile.Py.Exec.{Exec, continue, ◌>>=◌}
use versatile.World.{World}
use versatile.Manager.{Manager, dict_of}
use versatile.Manager.Database.{send_db_query}
use versatile.Manager.Device.{device_of}
use versatile.Manager.Leave.{leave_work, leave}
use versatile.Manager.Answers.{answer_lem}

-- An expression before a statement that raises and changes nothing.
blocked :
    {S A B : Type 0} (r : Result A) (f : A → Exec S B) (s : S)
    → ((a : A) → (e : Error) × (f a s ≡ (err e, s)))
    → (e : Error) × (continue r f s ≡ (err e, s))
blocked (ok a) f s h = h a
blocked (err e) f s h = (e, refl)

module _ (W : World) where
  -- The work raises, and changes nothing.
  pub leave_work_fails :
      (temp_id : String) (relay : Value) (s : Manager W.State)
      → (e : Error) × (leave_work W temp_id relay s ≡ (err e, s))
  unfolding leave_work send_db_query get ◌>>=◌
  leave_work_fails temp_id relay s =
      blocked (device_of temp_id relay) _ s
        (λ id. blocked (as_text id) _ s (λ device. (attribute_error, refl)))

  -- Whatever the database holds, and whatever payload with fields comes, `leave` answers with the
  -- error 1: the device stays in the cache and in the database, and nothing else changes.
  pub leave_fails :
      (temp_id : String) (fs : Fields) (s : Manager W.State)
      → leave W temp_id (dict fs) s ≡ (
        ok tt,
        record s {
          published =
              s.published
              ++ (
                "/configuration/leave_ack/" <> temp_id,
                dict_of (("error:", number 1) ∷ ("relay", field_of "relay" fs) ∷ []),
              )
                ∷ [];
        },
      )
  unfolding leave get ◌>>=◌
  leave_fails temp_id fs s =
      let (e, h) = leave_work_fails temp_id (field_of "relay" fs) s in
      answer_lem W ("/configuration/leave_ack/" <> temp_id)
        (leave_work W temp_id (field_of "relay" fs))
        (dict_of (("error:", number 1) ∷ ("relay", field_of "relay" fs) ∷ [])) s
      ∙ rw h refl
