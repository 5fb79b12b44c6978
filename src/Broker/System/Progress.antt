-- ===== src/Broker/System/Progress.antt =====
-- What the database client has to bring so that the requests that wait are answered.
use mathlib.Core.List.{append_assoc, append-nil}
use mathlib.Core.Path.{subst}
use versatile.Base.{
  ℕ, String, ◌≡◌, refl, sym, ◌∙◌, ◌⊎◌, inl, inr, true, Option, List, [], ◌∷◌, ◌++◌,
}
use versatile.Py.Value.{Value, Fields}
use versatile.Broker.Proc.{ret}
use versatile.Broker.Dispatch.{on_message}
use versatile.Broker.System.{Message, System, Event, turn, advance, step, run, initial}
use versatile.Broker.Answers.{on_message-Answers}
use versatile.Manager.Dispatch.Routes.{reply_topic}
use versatile.Broker.System.Due.{
  Requests, Pending, no_more, another, Due, idle, busy, topics, run-Due, initial-Due,
}
use versatile.Broker.System.Finish.{
  Served, served, served_turn, served_reply, Taken, Ended, at, Finishes, event_first, finish,
}

-- No handler runs, no request waits, and the replies are those that are due.
abbrev pub Done : List String → System → Type 0
Done due s = (s.running ≡ ret tt) × (s.inbox ≡ []) × (topics s.published ≡ due)

module _ (call_depth : ℕ) (ack : String → String) (payload : String → Fields) where
  abbrev Clears : List String → System → Type 0
  Clears due s =
      (es : List Event) × Served ack payload es
      × (Done due (run call_depth es s) ⊎ Taken (run call_depth es s))

  run-append :
      (es fs : List Event) (s : System)
      → run call_depth (es ++ fs) s ≡ run call_depth fs (run call_depth es s)
  unfolding run
  run-append [] fs s = refl
  run-append (e ∷ es) fs s = run-append es fs (step call_depth e s)

  Served-append :
      {es fs : List Event}
      → Served ack payload es
      → Served ack payload fs
      → Served ack payload (es ++ fs)
  Served-append served sf = sf
  Served-append (served_turn n se) sf = served_turn n (Served-append se sf)
  Served-append (served_reply id se) sf = served_reply id (Served-append se sf)

  finish_then :
      (t : String) (inbox : List Message) (sent : List (String × Value)) (due : List String)
      (s : System)
      → Finishes call_depth ack payload t inbox sent s
      → ((u : System) → Ended t inbox sent u → Clears due u)
      → Clears due s
  finish_then t inbox sent due s (es, se, inl ended) k =
      let (fs, sf, ends) = k (run call_depth es s) ended in
      (
        es ++ fs,
        Served-append se sf,
        subst (λ (u : System). Done due u ⊎ Taken u) (sym (run-append es fs s)) ends,
      )
  finish_then t inbox sent due s (es, se, inr taken) k = (es, se, inr taken)

  starts :
      (s : System) (topic : String) (m : Option Value) (inbox : List Message)
      → s.running ≡ ret tt
      → s.inbox ≡ (topic, m) ∷ inbox
      → step call_depth (turn 0) s ≡ at (on_message call_depth topic m) (record s { inbox = inbox })
  unfolding step advance
  starts s topic m inbox rests waiting = rw (rests, waiting) refl

  still_due :
      (t : String) (ts due : List String) (sent published : List (String × Value))
      → topics sent ++ t ∷ ts ≡ due
      → topics published ≡ topics sent ++ t ∷ []
      → topics published ++ ts ≡ due
  still_due t ts due sent published all one = rw (one, append_assoc (topics sent) (t ∷ []) ts) all

  clear :
      {inbox : List Message} {ts : List String} (due : List String) (s : System)
      → Pending inbox ts
      → s.running ≡ ret tt
      → s.inbox ≡ inbox
      → s.db_alive ≡ true
      → topics s.published ++ ts ≡ due
      → Clears due s
  unfolding run
  clear due s no_more rests empty alive all =
      ([], served, inl (rests, empty, sym (append-nil (topics s.published)) ∙ all))
  clear due s (another {inbox = inbox} {ts = ts} request id fs plain pend) rests waiting alive all =
      finish_then (reply_topic request id) inbox s.published due s
        (event_first call_depth ack payload _ _ _ (turn 0) s _ (λ es. served_turn 0)
          (starts s _ _ inbox rests waiting)
          (finish call_depth ack payload (record s { inbox = inbox })
            (on_message-Answers call_depth request id fs plain) alive))
        (λ u (rests, waiting, alive, one).
          clear due u pend rests waiting alive (still_due _ ts due s.published u.published all one))

  clear-Due : (s : System) (due : List String) → Due s due → s.db_alive ≡ true → Clears due s
  clear-Due s due (idle ts pend rests all) alive = clear due s pend rests refl alive all
  clear-Due s due (busy t ts pend a all) alive =
      finish_then t s.inbox s.published due s (finish call_depth ack payload s a alive)
        (λ u (rests, waiting, alive, one).
          clear due u pend rests waiting alive (still_due t ts due s.published u.published all one))

  -- Whatever the schedule so far, if its messages to the client are requests of the five kinds,
  -- each with an ID without a slash and a dict as payload, and the thread of the database client
  -- still runs: turns of the client's thread and answers of the database, on any topics that end
  -- in a slash and the ID and with any payloads that are dicts, can follow after which no handler
  -- runs, no request waits and the replies are those to all requests, in order; or all IDs of
  -- queries are taken.
  pub run_can_answer :
      {es : List Event} {ts : List String}
      → Requests es ts
      → (run call_depth es initial).db_alive ≡ true
      → (more : List Event) × Served ack payload more
        × (Done ts (run call_depth (es ++ more) initial)
            ⊎ Taken (run call_depth (es ++ more) initial))
  run_can_answer {es = es} requests alive =
      let (more, serves, ends) =
        clear-Due _ _ (run-Due call_depth initial [] requests initial-Due) alive in
      (more, serves, rw (run-append es more initial) ends)
