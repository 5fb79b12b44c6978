-- ===== src/Broker/System/Exchange.antt =====
-- A query to the database and the answer to it, in a run of the two threads.
use versatile.Base.{
  ℕ, String, ◌<>◌, ◌≡◌, refl, ap, ◌∙◌, Bool, true, false, some, List, [], ◌∷◌, ◌++◌,
}
use versatile.Base.Dict.{contains, insert}
use versatile.Py.Value.{Value, str, dict, Fields}
use versatile.Broker.Proc.{Proc, write, publish_db, draw, wait}
use versatile.Broker.Database.{query_id}
use versatile.Broker.Database.Ids.{query_id-IsLevel}
use versatile.Broker.System.{System, Event, turn, db_message, step, run}
use versatile.Broker.System.Finish.{at, answered_query, reply_comes, wait_ends}

abbrev pub turns : ℕ → List Event
turns ℕ.zero = []
turns (ℕ.suc n) = turn 0 ∷ turns n

module _ (call_depth : ℕ) (ack : String) (payload : Fields) where
  -- The entry "None", and the query on its topic.
  abbrev pub asked : String → Value → String → System → System
  asked topic query id s = record s {
    globals = record s.globals { query_cache = insert id (str "None") s.globals.query_cache };
    queries = s.queries ++ (topic <> "/" <> id, query) ∷ [];
  }

  abbrev pub asking : String → Value → (String → Bool → Proc Unit) → Proc Unit
  asking topic query f = draw (λ id.
      write (λ s. record s { query_cache = insert id (str "None") s.query_cache })
        (publish_db (topic <> "/" <> id) query (wait id (f id))))

  abbrev pub exchange_events : ℕ → List Event
  exchange_events n =
      turn n
      ∷ turn 0
      ∷ turn 0
      ∷ db_message (ack <> "/" <> query_id n) (some (dict payload))
      ∷ turn 0
      ∷ []

  pub exchange :
      (n : ℕ) (topic : String) (query : Value) (f : String → Bool → Proc Unit) (s : System)
      → contains (query_id n) s.globals.query_cache ≡ false
      → s.db_alive ≡ true
      → run call_depth (exchange_events n) (at (asking topic query f) s)
        ≡ at (f (query_id n) true) (
            answered_query call_depth
              (λ id. ack)
              (λ id. payload)
              (query_id n)
              (asked topic query (query_id n) s))
  unfolding run
  exchange n topic query f s free alive =
      ap
        (λ u.
          step call_depth (turn 0)
            (step call_depth answer (step call_depth (turn 0) (step call_depth (turn 0) u))))
        drawn
      ∙ ap (step call_depth (turn 0)) (
          reply_comes call_depth (λ id. ack) (λ id. payload) (query_id n)
            (at (wait (query_id n) (f (query_id n))) (asked topic query (query_id n) s))
            (query_id-IsLevel n) alive)
      ∙ wait_ends call_depth (λ id. ack) (λ id. payload) 0 (query_id n) (f (query_id n))
          (asked topic query (query_id n) s)
    where
      answer : Event
      answer = db_message (ack <> "/" <> query_id n) (some (dict payload))

      drawn :
          step call_depth (turn n) (at (asking topic query f) s)
          ≡ at
              (write
                (λ s. record s { query_cache = insert (query_id n) (str "None") s.query_cache })
                (publish_db
                  (topic <> "/" <> query_id n)
                  query
                  (wait (query_id n) (f (query_id n)))))
              s
      drawn = rw free refl
