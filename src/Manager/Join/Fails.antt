-- ===== src/Manager/Join/Fails.antt =====
-- A join that names no neighbors: the text "NULL" takes their place, and its letters are read as
-- neighbors.
use versatile.Base.{String, ◌<>◌, ◌≡◌, refl, [], ◌∷◌, ◌++◌}
use versatile.Py.Value.{
  ok, attribute_error, field_of, Value, null, str, dict, Fields, get, iterate, number,
}
use versatile.Py.Exec.{◌>>=◌}
use versatile.Py.Exec.Fails.{Fails, Fails-rest, Fails-first, Fails-lift, Fails-ok, Fails-traverse}
use versatile.World.{World}
use versatile.Manager.{Manager, dict_of}
use versatile.Manager.Join.{neighbor_row, join_rows, join_work, join}
use versatile.Manager.Quiet.{join_work-Quiet}
use versatile.Manager.Answers.{published-answer_failed}

module _ (W : World) where
  neighbor_row-Fails : (id s : String) → Fails (neighbor_row W id (str s))
  unfolding neighbor_row get
  neighbor_row-Fails id s = Fails-first _ _ (Fails-lift _ attribute_error refl)

  module _ (fs : Fields) (none_named : field_of "neighbors" fs ≡ null) where
    join_rows-Fails : (relay : Value) (id : String) → Fails (join_rows W (dict fs) relay id)
    unfolding join_rows get iterate
    join_rows-Fails relay id = Fails-rest _ _ λ pub_key. rw none_named (
        Fails-ok null _ (
          Fails-rest _ _ λ unique_codes. Fails-rest _ _ λ codes. Fails-rest _ _ λ info_list.
            Fails-rest _ _ λ inserted.
              Fails-ok _ _ (Fails-first _ _ (Fails-traverse _ _ _ (neighbor_row-Fails id "N")))))

    join_work-Fails :
        (temp_id : String) (relay : Value) → Fails (join_work W temp_id (dict fs) relay)
    unfolding join_work
    join_work-Fails temp_id relay = search (Fails-rest, join_rows-Fails) depth 12

    -- Whatever the database does, a join with a dict as payload in which 'neighbors' is missing or
    -- null returns, and the one message that it publishes is the reply with error 1.
    pub join_fails :
        (temp_id : String) (s : Manager W.State)
        → let (r, s') = join W temp_id (dict fs) s in
          (r ≡ ok tt)
          × (s'.published
              ≡ s.published
                ++ (
                  "/configuration/join_ack/" <> temp_id,
                  dict_of (
                      ("error:", number 1)
                      ∷ ("deviceID", str temp_id)
                      ∷ ("relay", field_of "relay" fs)
                      ∷ []),
                )
                  ∷ [])
    unfolding join get ◌>>=◌
    join_fails temp_id s =
        let relay = field_of "relay" fs in
        published-answer_failed W _ _ _ s (join_work-Quiet W temp_id (dict fs) relay)
          (join_work-Fails temp_id relay)
