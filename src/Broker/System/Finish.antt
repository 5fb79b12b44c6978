-- ===== src/Broker/System/Finish.antt =====
-- How a handler that is still to answer comes to its end, if the database answers its queries.
use text.Mathlib.TextPositions.{eq_refl}
use mathlib.Core.Path.{subst}
use versatile.Base.{
  ℕ, String, ◌<>◌, ◌≡◌, refl, sym, ap, ◌∙◌, ◌⊎◌, inl, inr, Bool, true, false, some, List, [], ◌∷◌,
  ◌++◌,
}
use versatile.Base.Chars.{has_char}
use versatile.Base.Dict.{Dict, contains, lookup, insert, lookup-insert, contains-insert}
use versatile.Py.Value.{Value, dict, Fields}
use versatile.Broker.Proc.{Proc, ret, wait}
use versatile.Broker.Database.{query_id}
use versatile.Broker.Database.Free.{free_query_id}
use versatile.Broker.Dispatch.Stored.{on_db_message-stored}
use versatile.Broker.Paths.{
  answer_read, answer_write, answer_publish, answer_publish_db, answer_draw, answer_wait,
}
use versatile.Broker.System.{Message, System, Event, turn, db_message, advance, step, run}
use versatile.Broker.System.Due.{Replies, topics, map-append}

-- Turns of the client's thread, and answers of the database to the IDs of queries. `ack` is the topic
-- of an answer in front of the ID, and `payload` its payload.
pub data Served (ack : String → String) (payload : String → Fields) : List Event → Type 0 where
  served : Served ack payload []
  served_turn : {es : List Event} (n : ℕ) → Served ack payload es → Served ack payload (turn n ∷ es)
  served_reply :
      {es : List Event} (id : String)
      → Served ack payload es
      → Served ack payload (db_message (ack id <> "/" <> id) (some (dict (payload id))) ∷ es)

-- All IDs that a query can have are keys of `dbQuery_cache`.
abbrev pub Taken : System → Type 0
Taken s = (n : ℕ) → contains (query_id n) s.globals.query_cache ≡ true

-- No handler runs, and one more reply is published.
abbrev pub Ended : String → List Message → List (String × Value) → System → Type 0
Ended t inbox sent s =
    (s.running ≡ ret tt)
    × (s.inbox ≡ inbox)
    × (s.db_alive ≡ true)
    × (topics s.published ≡ topics sent ++ t ∷ [])

abbrev pub at : Proc Unit → System → System
at p s = record s { running = p }

pub found_new : (id : String) (v : Value) (d : Dict Value) → lookup id (insert id v d) ≡ some v
found_new id v d = rw (lookup-insert id id v d, eq_refl id) refl

pub contains_new : (id : String) (v : Value) (d : Dict Value) → contains id (insert id v d) ≡ true
contains_new id v d = rw (contains-insert id id v d, eq_refl id) refl

module _ (call_depth : ℕ) (ack : String → String) (payload : String → Fields) where
  abbrev pub Finishes : String → List Message → List (String × Value) → System → Type 0
  Finishes t inbox sent s =
      (es : List Event) × Served ack payload es
      × (Ended t inbox sent (run call_depth es s) ⊎ Taken (run call_depth es s))

  pub event_first :
      (t : String) (inbox : List Message) (sent : List (String × Value)) (e : Event)
      (s next : System)
      → ((es : List Event) → Served ack payload es → Served ack payload (e ∷ es))
      → step call_depth e s ≡ next
      → Finishes t inbox sent next
      → Finishes t inbox sent s
  unfolding run
  event_first t inbox sent e s next serve h (es, serves, ends) = (
    e ∷ es,
    serve es serves,
    subst (λ (u : System). Ended t inbox sent (run call_depth es u) ⊎ Taken (run call_depth es u))
        (sym h) ends,
  )

  -- `dbQuery_cache` with the answer to one ID
  abbrev pub answered_query : String → System → System
  answered_query id s = record s {
    globals = record s.globals {
      query_cache = insert id (dict (payload id)) s.globals.query_cache;
    };
  }

  pub reply_comes :
      (id : String) (s : System)
      → has_char b'/' id ≡ false
      → s.db_alive ≡ true
      → step call_depth (db_message (ack id <> "/" <> id) (some (dict (payload id)))) s
        ≡ answered_query id s
  unfolding step
  reply_comes id s level alive =
      rw (alive, on_db_message-stored (ack id) id (dict (payload id)) s.globals level) refl

  pub wait_ends :
      (n : ℕ) (id : String) (f : Bool → Proc Unit) (s : System)
      → step call_depth (turn n) (at (wait id f) (answered_query id s))
        ≡ at (f true) (answered_query id s)
  unfolding step advance
  wait_ends n id f s = rw (found_new id (dict (payload id)) s.globals.query_cache) refl

  -- Each command of a handler that is still to answer can be made to end.
  pub finish :
      {t : String} {p : Proc Unit} (s : System)
      → Replies t p
      → s.db_alive ≡ true
      → Finishes t s.inbox s.published (at p s)
  unfolding step advance run
  finish {t = t} s (answer_read f a) alive =
      event_first t _ _ (turn 0) _ (at (f s.globals) s) (λ es. served_turn 0) refl
        (finish s (a s.globals) alive)
  finish {t = t} s (answer_write g p a) alive =
      event_first t _ _ (turn 0) _ (at p (record s { globals = g s.globals })) (λ es. served_turn 0)
        refl (finish (record s { globals = g s.globals }) a alive)
  finish {t = t} s (answer_publish topic m same) alive = (
    turn 0 ∷ [],
    served_turn 0 served,
    inl (
      refl,
      refl,
      alive,
      map-append s.published topic m ∙ ap (λ (t : String). topics s.published ++ t ∷ []) same,
    ),
  )
  finish {t = t} s (answer_publish_db topic m p a) alive =
      event_first t _ _ (turn 0) _ (at p (record s { queries = s.queries ++ (topic, m) ∷ [] }))
        (λ es. served_turn 0) refl
        (finish (record s { queries = s.queries ++ (topic, m) ∷ [] }) a alive)
  finish {t = t} s (answer_draw f a) alive = elim (free_query_id s.globals.query_cache) [
    | inl (n, free) ↦
        event_first t _ _ (turn n) _ (at (f (query_id n)) s) (λ es. served_turn n) (rw free refl)
          (finish s (a n) alive)
    | inr used ↦ ([], served, inr used)
  ]
  finish {t = t} s (answer_wait id f level a) alive =
      event_first t _ _ (db_message (ack id <> "/" <> id) (some (dict (payload id)))) _
        (at (wait id f) (answered_query id s)) (λ es. served_reply id)
        (reply_comes id (at (wait id f) s) level alive)
        (event_first t _ _ (turn 0) _ (at (f true) (answered_query id s)) (λ es. served_turn 0)
          (wait_ends 0 id f s) (finish (answered_query id s) (a true) alive))
