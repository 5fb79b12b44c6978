-- ===== src/Broker/System/Replies.antt =====
-- What the clients get, over every schedule of the two threads.
use versatile.Base.{ℕ, String, ◌≡◌, ◌≢◌, refl, List, [], ◌∷◌, ◌++◌, ◌⊎◌, inl, inr}
use versatile.Py.Value.{Error}
use versatile.Broker.Proc.{Proc, ret, fail}
use versatile.Broker.Paths.{
  answer_read, answer_write, answer_publish, answer_publish_db, answer_draw, answer_wait,
}
use versatile.Broker.System.{Message, System, Event, run, initial}
use versatile.Broker.System.Due.{
  Requests, Pending, no_more, another, Due, idle, busy, Replies, topics, run-Due, initial-Due,
}

-- The replies so far are those due for the first requests.
abbrev pub Answered : List String → System → Type 0
Answered due s =
    (rest : List String) × (topics s.published ++ rest ≡ due)
    × ((rest ≡ []) ⊎ (s.running ≢ ret tt) ⊎ (s.inbox ≢ []))
    × ((e : Error) → s.running ≢ fail e)

unfinished : {t : String} {p : Proc Unit} → Replies t p → p ≢ ret tt
unfinished (answer_read f a) h = cc
unfinished (answer_write g p a) h = cc
unfinished (answer_publish topic m same) h = cc
unfinished (answer_publish_db topic m p a) h = cc
unfinished (answer_draw f a) h = cc
unfinished (answer_wait id f level a) h = cc

unfailed : {t : String} {p : Proc Unit} → Replies t p → (e : Error) → p ≢ fail e
unfailed (answer_read f a) e h = cc
unfailed (answer_write g p a) e h = cc
unfailed (answer_publish topic m same) e h = cc
unfailed (answer_publish_db topic m p a) e h = cc
unfailed (answer_draw f a) e h = cc
unfailed (answer_wait id f level a) e h = cc

module _ (call_depth : ℕ) where
  all_or_wait :
      {inbox : List Message} {ts : List String} → Pending inbox ts → (ts ≡ []) ⊎ (inbox ≢ [])
  all_or_wait no_more = inl refl
  all_or_wait (another request id fs plain p) = inr (λ h. cc)

  Due-Answered : (s : System) (due : List String) → Due s due → Answered due s
  Due-Answered s due (idle ts pend rests all) = (ts, all, idle_rest (all_or_wait pend), λ e h. cc)
    where
      idle_rest : (ts ≡ []) ⊎ (s.inbox ≢ []) → (ts ≡ []) ⊎ (s.running ≢ ret tt) ⊎ (s.inbox ≢ [])
      idle_rest (inl none) = inl none
      idle_rest (inr waits) = inr (inr waits)
  Due-Answered s due (busy t ts pend a all) =
      (t ∷ ts, all, inr (inl (unfinished a)), λ e h. unfailed a e h)

  -- Whatever the order of turns, of connections, of replies of the database (to any ID, with any
  -- payload) and of requests, if each request is of one of the five kinds, with an ID without a
  -- slash and a dict as payload: the messages published to the clients are, in order, on the reply
  -- topics of the first requests; every request has its reply, or a handler runs, or a request
  -- waits; and the client's thread has not been ended by an exception.
  pub run_answers :
      {es : List Event} {ts : List String}
      → Requests es ts
      → Answered ts (run call_depth es initial)
  run_answers requests = Due-Answered _ _ (run-Due call_depth initial [] requests initial-Due)
