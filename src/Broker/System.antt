-- ===== src/Broker/System.antt =====
-- The two threads. A schedule is a list of events: turns of the client's thread, and what arrives
-- from the brokers, in any order. A turn runs one command of the handler, or starts the handler of
-- the next message; the number of the turn is what the random source gives if it is asked.
pub mod Due
pub mod Replies
pub mod Finish
pub mod Progress
pub mod Stuck
pub mod Exchange
use versatile.Base.{
  ℕ, String, Bool, true, false, Option, none, some, List, [], ◌∷◌, ◌++◌, if◌then◌else◌,
}
use versatile.Base.Dict.{Dict, lookup, contains}
use versatile.Py.Value.{Error, Result, ok, err, Value, is_text}
use versatile.Broker.Proc.{Proc, Globals, ret, fail, read, write, publish, publish_db, draw, wait}
use versatile.Broker.Database.{query_id}
use versatile.Broker.Dispatch.{client_topics, db_topics, on_message, on_db_message}

abbrev pub Message : Type 0
Message = String × Option Value

pub record System : Type 0 where
  pub globals : Globals
  -- what the two clients have published, in order
  pub published : List (String × Value)
  pub queries : List (String × Value)
  -- their subscriptions
  pub subscribed : List String
  pub db_subscribed : List String
  -- messages to the client that are not handled yet
  pub inbox : List Message
  -- what is left of the handler; `ret` between two messages, `fail` after an exception has ended
  -- the thread
  pub running : Proc Unit
  -- whether the thread of the database client runs
  pub db_alive : Bool

pub data Event : Type 0 where
  turn : ℕ → Event
  message : String → Option Value → Event
  db_message : String → Option Value → Event
  connected db_connected : Event

-- The entry of a query that has no reply yet.
abbrev pub is_pending : Option Value → Bool
is_pending none = false
is_pending (some v) = is_text v "None"

abbrev pub is_there : Option Value → Bool
is_there none = false
is_there (some v) = true

module _ (call_depth : ℕ) where
  unfoldable pub start : List Message → System → System
  start [] s = s
  start ((topic, payload) ∷ inbox) s = record s {
    inbox = inbox;
    running = on_message call_depth topic payload;
  }

  unfoldable pub advance : ℕ → Proc Unit → System → System
  unfolding start query_id
  advance n (ret u) s = start s.inbox s
  advance n (fail e) s = s
  advance n (read f) s = record s { running = f s.globals }
  advance n (write g p) s = record s { globals = g s.globals; running = p }
  advance n (publish topic m p) s = record s {
    published = s.published ++ (topic, m) ∷ [];
    running = p;
  }
  advance n (publish_db topic m p) s = record s {
    queries = s.queries ++ (topic, m) ∷ [];
    running = p;
  }
  advance n (draw f) s =
      if contains (query_id n) s.globals.query_cache
      then s
      else record s { running = f (query_id n) }
  advance n (wait id f) s =
      let found = lookup id s.globals.query_cache in
      if is_pending found then s else record s { running = f (is_there found) }

  abbrev pub store : Result Globals → System → System
  store (ok g) s = record s { globals = g }
  store (err e) s = record s { db_alive = false }

  unfoldable pub step : Event → System → System
  unfolding advance
  step (turn n) s = advance n s.running s
  step (message topic payload) s = record s { inbox = s.inbox ++ (topic, payload) ∷ [] }
  step (db_message topic payload) s =
      if s.db_alive then store (on_db_message topic payload s.globals) s else s
  step connected s = record s { subscribed = s.subscribed ++ client_topics }
  step db_connected s = record s { db_subscribed = s.db_subscribed ++ db_topics }

  unfoldable pub run : List Event → System → System
  unfolding step
  run [] s = s
  run (e ∷ es) s = run es (step e s)

abbrev pub initial : System
initial = record {
  globals = record { device_cache = []; other_devices = []; query_cache = [] };
  published = [];
  queries = [];
  subscribed = [];
  db_subscribed = [];
  inbox = [];
  running = ret tt;
  db_alive = true;
}
