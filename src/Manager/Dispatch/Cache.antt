-- ===== src/Manager/Dispatch/Cache.antt =====
-- The cache of devices over a sequence of messages.
use versatile.Base.{
  String, ◌≡◌, ap, true, false, ◌⊎◌, inl, inr, Option, none, some, List, [], ◌∷◌, ◌++◌,
}
use versatile.Base.Dict.{contains}
use versatile.Py.Value.{Result-cases, ok, Value, str}
use versatile.Py.Exec.Frame.{Keeps, IsPreorder, keeps_rules}
use versatile.Py.Exec.Post.{Returns, returns_rules}
use versatile.World.{World}
use versatile.Manager.{Manager, Act}
use versatile.Manager.Device.{answer}
use versatile.Manager.Join.{join_work, join}
use versatile.Manager.Leave.{leave_work, leave}
use versatile.Manager.Leave.Fails.{leave_work_fails}
use versatile.Manager.Register.{register_work, register}
use versatile.Manager.Update.{update_work, update}
use versatile.Manager.Query.{query_work, query}
use versatile.Manager.Quiet.{
  Quiet, Quiet-preorder, join_work-Quiet, register_work-Quiet, update_work-Quiet, query_work-Quiet,
}
use versatile.Manager.Answers.{outcome, answer_lem}
use versatile.Manager.Join.Fresh.{id_of, join_work-Given}
use versatile.Manager.Dispatch.Ids.{
  given_ids, AllDiffer, AllCached, AllCached-all, Remembers, Remembers-none, Remembers-new,
}
use versatile.Manager.Dispatch.{configure, utilize, on_message}

module _ (W : World) where
  -- Every device that is cached before is cached after, and the IDs that are answered keep differing.
  record Serves (s s' : Manager W.State) : Type 0 where
    grows : (id : String) → contains id s.device_cache ≡ true → contains id s'.device_cache ≡ true
    remembers : Remembers s → Remembers s'

  Serves-preorder : IsPreorder Serves
  Serves-preorder = record {
    same = λ s. record { grows = λ id h. h; remembers = λ r. r };
    chain = λ s t u p q. record {
      grows = λ id h. q.grows id (p.grows id h);
      remembers = λ r. q.remembers (p.remembers r);
    };
  }

  -- A reply without an ID, or with one that was not cached and is then.
  abbrev Honest : Act W Value → Type 0
  Honest work =
      (s : Manager W.State) (m : Value)
      → (work s).0 ≡ ok m
      → (id_of m ≡ none)
        ⊎ ((id : String) × (id_of m ≡ some (str id))
            × (contains id s.device_cache ≡ false)
            × (contains id (work s).1.device_cache ≡ true))

  -- The outcome of quiet work is published.
  answer-Serves :
      (topic : String) (work : Act W Value) (error_reply : Value)
      → id_of error_reply ≡ none
      → Keeps (Quiet W) work
      → Honest work
      → Keeps Serves (answer W topic work error_reply)
  answer-Serves topic work error_reply no_id k honest = record {
    at = λ s. rw (answer_lem W topic work error_reply s) (
        let quiet = k.at s in
        let one =
          ap (λ ms. ms ++ (topic, outcome (work s).0 error_reply) ∷ []) quiet.same_published in
        record {
          grows = quiet.grows;
          remembers = λ before. elim (Result-cases (work s).0) [
            | inl (e, failed) ↦ Remembers-none s _ topic _ one quiet.grows before (rw failed no_id)
            | inr (m, replied) ↦ elim (honest s m replied) [
              | inl none_here ↦
                  Remembers-none s _ topic _ one quiet.grows before (rw replied none_here)
              | inr (id, has_id, absent, given) ↦
                  Remembers-new s _ topic _ one quiet.grows before id (rw replied has_id) absent
                    given
            ]
          ];
        });
  }

  plain_reply : (work : Act W Value) → Returns (λ m. id_of m ≡ none) work → Honest work
  plain_reply work k s m h = inl (k.at s m h)

  join_reply :
      (temp_id : String) (payload relay : Value) → Honest (join_work W temp_id payload relay)
  join_reply temp_id payload relay s m h =
      let (id, has_id, ((grown, absent), given)) =
        (join_work-Given W s temp_id payload relay).at s (λ id c. c) m h in
      inr (id, has_id, absent, given)

  leave_work-Quiet :
      (temp_id : String) (relay : Value) → Keeps (Quiet W) (leave_work W temp_id relay)
  leave_work-Quiet temp_id relay = record {
    at = λ s.
        let (e, same) = leave_work_fails W temp_id relay s in rw same ((Quiet-preorder W).same s);
  }

  leave_work-id :
      (temp_id : String) (relay : Value)
      → Returns (λ m. id_of m ≡ none) (leave_work W temp_id relay)
  unfolding leave_work id_of
  leave_work-id temp_id relay = search returns_rules depth 30

  register_work-id :
      (temp_id : String) (payload relay register_id : Value)
      → Returns (λ m. id_of m ≡ none) (register_work W temp_id payload relay register_id)
  unfolding register_work id_of
  register_work-id temp_id payload relay register_id = search returns_rules depth 30

  update_work-id :
      (temp_id : String) (payload relay update_id : Value)
      → Returns (λ m. id_of m ≡ none) (update_work W temp_id payload relay update_id)
  unfolding update_work id_of
  update_work-id temp_id payload relay update_id = search returns_rules depth 30

  query_work-id :
      (temp_id : String) (payload relay query_id : Value)
      → Returns (λ m. id_of m ≡ none) (query_work W temp_id payload relay query_id)
  unfolding query_work id_of
  query_work-id temp_id payload relay query_id = search returns_rules depth 30

  ruleset answer_rules = (
    keeps_rules, Serves-preorder, answer-Serves, plain_reply, join_reply, join_work-Quiet,
    leave_work-Quiet, leave_work-id, register_work-Quiet, register_work-id, update_work-Quiet,
    update_work-id, query_work-Quiet, query_work-id,
  )

  join-Serves : (temp_id : String) (payload : Value) → Keeps Serves (join W temp_id payload)
  unfolding join id_of
  join-Serves temp_id payload = search answer_rules depth 12

  leave-Serves : (temp_id : String) (payload : Value) → Keeps Serves (leave W temp_id payload)
  unfolding leave id_of
  leave-Serves temp_id payload = search answer_rules depth 12

  register-Serves : (temp_id : String) (payload : Value) → Keeps Serves (register W temp_id payload)
  unfolding register id_of
  register-Serves temp_id payload = search answer_rules depth 12

  update-Serves : (temp_id : String) (payload : Value) → Keeps Serves (update W temp_id payload)
  unfolding update id_of
  update-Serves temp_id payload = search answer_rules depth 12

  query-Serves : (temp_id : String) (payload : Value) → Keeps Serves (query W temp_id payload)
  unfolding query id_of
  query-Serves temp_id payload = search answer_rules depth 12

  ruleset handler_rules = (
    keeps_rules, Serves-preorder, join-Serves, leave-Serves, register-Serves, update-Serves,
    query-Serves,
  )

  configure-Serves :
      (topic : List String) (payload : Value) → Keeps Serves (configure W topic payload)
  unfolding configure
  configure-Serves topic payload = search handler_rules depth 16

  utilize-Serves : (topic : List String) (payload : Value) → Keeps Serves (utilize W topic payload)
  unfolding utilize
  utilize-Serves topic payload = search handler_rules depth 16

  on_message-Serves :
      (topic : String) (payload : Option Value) → Keeps Serves (on_message W topic payload)
  unfolding on_message
  on_message-Serves topic payload =
      search (handler_rules, configure-Serves, utilize-Serves) depth 16

  -- The messages of a session, one after another; an exception ends its own message only.
  abbrev pub on_messages : List (String × Option Value) → Manager W.State → Manager W.State
  on_messages [] s = s
  on_messages ((topic, payload) ∷ messages) s =
      on_messages messages (on_message W topic payload s).1

  -- Whatever messages arrive, `leave` requests among them, and whatever the database does, a device
  -- that is in the cache stays in it.
  pub on_messages_keep_devices :
      (messages : List (String × Option Value)) (s : Manager W.State) (id : String)
      → contains id s.device_cache ≡ true
      → contains id (on_messages messages s).device_cache ≡ true
  on_messages_keep_devices [] s id h = h
  on_messages_keep_devices ((topic, payload) ∷ messages) s id h =
      on_messages_keep_devices messages _ id (((on_message-Serves topic payload).at s).grows id h)

  on_messages-Remembers :
      (messages : List (String × Option Value)) (s : Manager W.State)
      → Remembers s
      → Remembers (on_messages messages s)
  on_messages-Remembers [] s r = r
  on_messages-Remembers ((topic, payload) ∷ messages) s r =
      on_messages-Remembers messages _ (((on_message-Serves topic payload).at s).remembers r)

  -- Whatever messages a manager that has published nothing gets, and whatever the database does, the
  -- IDs in its replies to joins all differ, and all are in the cache.
  pub on_messages_distinct_ids :
      (messages : List (String × Option Value)) (s : Manager W.State)
      → s.published ≡ []
      → let s' = on_messages messages s in
        AllDiffer (given_ids s'.published) × AllCached (given_ids s'.published) s'.device_cache
  on_messages_distinct_ids messages s fresh =
      let r =
        on_messages-Remembers messages s
          (record { differ = rw fresh tt; kept = λ id h. absurd (cc (rw fresh at h)) }) in
      (r.differ, AllCached-all _ _ r.kept)
