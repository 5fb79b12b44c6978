-- ===== src/Broker/GenId/Runs.antt =====
-- A round of `join_genID` in the broker version, with an answer of the database.
use versatile.Base.{
  ℕ, suc, ◌+◌, String, ◌<>◌, ◌≡◌, refl, ap, ◌∙◌, Bool, true, false, some, List, [], ◌∷◌, ◌++◌,
  if◌then◌else◌,
}
use versatile.Base.Dict.{contains, insert, erase, lookup, erase-insert_twice, insert_again}
use versatile.Py.Value.{Error, key_error, Value, bool, str, dict, Fields, field_of, truthy, get}
use versatile.Manager.Database.{id_query}
use versatile.Manager.GenId.{collision_inc}
use versatile.Broker.Proc.{Proc, Globals, ret, fail, write, attempt, lift, ◌>>=◌, ◌>>◌}
use versatile.Broker.Database.{query_id, db_select, send_db_query, select_rows, entry, forget_query}
use versatile.Broker.GenId.{flagged, free_flag, cache_device, join_gen_id}
use versatile.Broker.System.{System, Event, turn, advance, step, run}
use versatile.Broker.System.Finish.{at, answered_query, found_new, contains_new}
use versatile.Broker.System.Exchange.{turns, asking, asked, exchange, exchange_events}

module _ (call_depth depth : ℕ) (device ack : String) (flag n : ℕ) (payload : Fields)
    (handler : Error → Proc Unit) (k : String → Proc Unit) (s : System) where
  -- The ID that the loop over the cache ends at.
  abbrev pub free_id : String
  free_id = flagged device (free_flag s.globals.device_cache device flag)

  abbrev next_round : Proc String
  next_round =
      join_gen_id depth device (free_flag s.globals.device_cache device flag + collision_inc)

  abbrev cached_as : Value → Globals → Globals
  cached_as v g = record g { device_cache = insert free_id v g.device_cache }

  abbrev decide : Value → Proc String
  decide exist =
      cache_device free_id (bool true) >> (if truthy exist then next_round else ret free_id)

  abbrev after_select : String → Bool → Proc Unit
  after_select id present =
      attempt
        (((if present then ret id else fail key_error) >>= λ id. do
          payload ← entry id
          exist ← lift (get payload "data")
          forget_query id
          ret exist)
          >>= decide)
        handler k

  abbrev asks_device : System
  asks_device = record s { globals = cached_as (str "None") s.globals }

  asks :
      (es : List Event)
      → run call_depth
          (turn 0 ∷ turn 0 ∷ es)
          (at (attempt (join_gen_id (suc depth) device flag) handler k) s)
        ≡ run call_depth es (
            at
              (asking call_depth ack payload db_select
                (id_query "Device" "deviceId" free_id)
                after_select)
              asks_device)
  unfolding run join_gen_id attempt select_rows send_db_query cache_device ◌>>=◌
  asks es = refl

  rows_read :
      (id : String) (t : System)
      → lookup id t.globals.query_cache ≡ some (dict payload)
      → step call_depth (turn 0) (at (after_select id true) t)
        ≡ at (attempt ((forget_query id >> ret (field_of "data" payload)) >>= decide) handler k) t
  unfolding step advance attempt entry get ◌>>=◌
  rows_read id t found = rw found refl

  entry_found :
      (id : String) (t : System)
      → contains id t.globals.query_cache ≡ true
      → step call_depth
          (turn 0)
          (at (attempt ((forget_query id >> ret (field_of "data" payload)) >>= decide) handler k) t)
        ≡ at
            (write
              (λ g. record g { query_cache = erase id g.query_cache })
              (attempt (decide (field_of "data" payload)) handler k))
            t
  unfolding step advance attempt forget_query ◌>>=◌
  entry_found id t present = rw present refl

  no_rows :
      (t : System)
      → truthy (field_of "data" payload) ≡ false
      → step call_depth (turn 0) (at (attempt (decide (field_of "data" payload)) handler k) t)
        ≡ at (k free_id) (record t { globals = cached_as (bool true) t.globals })
  unfolding step advance attempt cache_device ◌>>=◌
  no_rows t none = rw none refl

  abbrev pub gen_events : List Event
  gen_events = turns 2 ++ exchange_events call_depth ack payload n ++ turns 4

  abbrev answered_system : System
  answered_system =
      answered_query call_depth (λ id. ack) (λ id. payload) (query_id n)
        (asked call_depth ack payload db_select (id_query "Device" "deviceId" free_id) (query_id n)
          asks_device)

  abbrev erased_system : System
  erased_system = record answered_system {
    globals = record answered_system.globals {
      query_cache = erase (query_id n) answered_system.globals.query_cache;
    };
  }

  -- The ID is cached, and one query for it was sent.
  abbrev pub generated : System
  generated = record s {
    globals = cached_as (bool true) s.globals;
    queries =
        s.queries ++ (db_select <> "/" <> query_id n, id_query "Device" "deviceId" free_id) ∷ [];
  }

  -- With calls left, a new ID for the query, and a database client that runs and brings an answer
  -- without rows, `join_genID` of the broker version sends one query, for the ID that the loop over the
  -- cache ends at, caches that ID, leaves the cache of replies as before, and goes on with that ID.
  pub join_gen_id_runs :
      contains (query_id n) s.globals.query_cache ≡ false
      → s.db_alive ≡ true
      → truthy (field_of "data" payload) ≡ false
      → run call_depth gen_events (at (attempt (join_gen_id (suc depth) device flag) handler k) s)
        ≡ at (k free_id) generated
  unfolding run
  join_gen_id_runs free alive none =
      asks (exchange_events call_depth ack payload n ++ turns 4)
      ∙ ap (run call_depth (turns 4)) (
          exchange call_depth ack payload n db_select (id_query "Device" "deviceId" free_id)
            after_select asks_device free alive)
      ∙ ap (run call_depth (turns 3)) (rows_read (query_id n) answered_system (found_new _ _ _))
      ∙ ap (run call_depth (turns 2))
          (entry_found (query_id n) answered_system (contains_new _ _ _))
      ∙ no_rows erased_system none
      ∙ ap
          (λ c. at (k free_id) (record generated {
            globals = record s.globals {
              device_cache =
                  insert free_id (bool true) (insert free_id (str "None") s.globals.device_cache);
              query_cache = c;
            };
          }))
          (erase-insert_twice (query_id n) (dict payload) (str "None") s.globals.query_cache free)
      ∙ ap
          (λ c.
            at (k free_id) (record generated { globals = record s.globals { device_cache = c } }))
          (insert_again free_id (bool true) (str "None") s.globals.device_cache)
