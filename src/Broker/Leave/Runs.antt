-- ===== src/Broker/Leave/Runs.antt =====
-- A run of `leave` in which the database deletes the device.
use versatile.Base.{
  ℕ, String, ◌<>◌, ◌≡◌, ap, ◌∙◌, Bool, true, false, inl, inr, Bool-cases, List, [], ◌∷◌, ◌++◌,
}
use versatile.Base.Dict.{contains, erase, erase-insert_twice, insert, insert_again}
use versatile.Py.Value.{ok, str, dict, Fields, field_of, is_zero}
use versatile.Manager.Database.{id_query}
use versatile.Manager.Device.{device_of}
use versatile.Broker.Proc.{Globals, ret}
use versatile.Broker.Database.{query_id, db_delete}
use versatile.Broker.Leave.{leave}
use versatile.Broker.System.{System, Event, turn, run}
use versatile.Broker.System.Finish.{at, answered_query, found_new, contains_new}
use versatile.Broker.System.Exchange.{turns, asked, exchange, exchange_events}
use versatile.Broker.Leave.Done.{
  ack_topic, leave_ack, after_query, leave-asks, before_device, device_left, device_forgotten,
  device_missed, deletion_failed, erased_query,
}

module _ (call_depth : ℕ) (temp_id device ack : String) (fs payload : Fields) (n : ℕ)
    (s : System) where
  abbrev pub leave_events : ℕ → List Event
  leave_events more = exchange_events call_depth ack payload n ++ turns more

  -- The query to the database, and the reply to the client.
  abbrev pub sent_and_told : ℕ → Globals → System
  sent_and_told error globals = record s {
    globals = globals;
    queries =
        s.queries ++ (db_delete <> "/" <> query_id n, id_query "Device" "deviceId" device) ∷ [];
    published = s.published ++ (ack_topic temp_id, leave_ack error (field_of "relay" fs)) ∷ [];
  }

  abbrev answered_system : System
  answered_system =
      answered_query call_depth (λ id. ack) (λ id. payload) (query_id n)
        (asked call_depth ack payload db_delete (id_query "Device" "deviceId" device) (query_id n)
          s)

  up_to_device :
      (es : List Event)
      → device_of temp_id (field_of "relay" fs) ≡ ok (str device)
      → contains (query_id n) s.globals.query_cache ≡ false
      → s.db_alive ≡ true
      → is_zero (field_of "error" payload) ≡ true
      → run call_depth
          (exchange_events call_depth ack payload n ++ turn 0 ∷ turn 0 ∷ turn 0 ∷ es)
          (at (leave temp_id (dict fs)) s)
        ≡ run call_depth es (
            at
              (device_left call_depth temp_id device (field_of "relay" fs))
              (record answered_system {
                globals = erased_query (query_id n) answered_system.globals;
              }))
  unfolding run
  up_to_device es from free alive done =
      ap
        (λ p.
          run call_depth (exchange_events call_depth ack payload n ++ turn 0 ∷ turn 0 ∷ turn 0 ∷ es)
            (at p s))
        (leave-asks temp_id device fs from)
      ∙ ap (run call_depth (turn 0 ∷ turn 0 ∷ turn 0 ∷ es)) (
          exchange call_depth ack payload n db_delete (id_query "Device" "deviceId" device)
            (after_query temp_id device (field_of "relay" fs)) s free alive)
      ∙ before_device call_depth temp_id device (field_of "relay" fs) (query_id n) payload es
          answered_system (found_new _ _ _) (contains_new _ _ _) done

  leave_runs :
      device_of temp_id (field_of "relay" fs) ≡ ok (str device)
      → contains (query_id n) s.globals.query_cache ≡ false
      → s.db_alive ≡ true
      → is_zero (field_of "error" payload) ≡ true
      → contains device s.globals.device_cache ≡ true
      → run call_depth (leave_events 6) (at (leave temp_id (dict fs)) s)
        ≡ at (ret tt) (
            sent_and_told 0
              (record s.globals { device_cache = erase device s.globals.device_cache }))
  unfolding run
  leave_runs from free alive done known =
      up_to_device (turns 3) from free alive done
      ∙ ap (run call_depth (turns 2)) (
          device_forgotten call_depth temp_id device (field_of "relay" fs)
            (record answered_system { globals = erased_query (query_id n) answered_system.globals })
            known)
      ∙ ap
          (λ c. at (ret tt) (
            sent_and_told 0 (record s.globals {
              device_cache = erase device s.globals.device_cache;
              query_cache = c;
            })))
          (erase-insert_twice (query_id n) (dict payload) (str "None") s.globals.query_cache free)

  leave_refuses_uncached :
      device_of temp_id (field_of "relay" fs) ≡ ok (str device)
      → contains (query_id n) s.globals.query_cache ≡ false
      → s.db_alive ≡ true
      → is_zero (field_of "error" payload) ≡ true
      → contains device s.globals.device_cache ≡ false
      → run call_depth (leave_events 5) (at (leave temp_id (dict fs)) s)
        ≡ at (ret tt) (sent_and_told 1 s.globals)
  unfolding run
  leave_refuses_uncached from free alive done unknown =
      up_to_device (turns 2) from free alive done
      ∙ ap (run call_depth (turns 1)) (
          device_missed call_depth temp_id device (field_of "relay" fs)
            (record answered_system { globals = erased_query (query_id n) answered_system.globals })
            unknown)
      ∙ ap (λ c. at (ret tt) (sent_and_told 1 (record s.globals { query_cache = c })))
          (erase-insert_twice (query_id n) (dict payload) (str "None") s.globals.query_cache free)

  abbrev kept_query : Globals
  kept_query = record s.globals {
    query_cache = insert (query_id n) (dict payload) s.globals.query_cache;
  }

  leave_keeps_query :
      device_of temp_id (field_of "relay" fs) ≡ ok (str device)
      → contains (query_id n) s.globals.query_cache ≡ false
      → s.db_alive ≡ true
      → is_zero (field_of "error" payload) ≡ false
      → run call_depth (leave_events 2) (at (leave temp_id (dict fs)) s)
        ≡ at (ret tt) (sent_and_told 1 kept_query)
  unfolding run
  leave_keeps_query from free alive failed =
      ap (λ p. run call_depth (leave_events 2) (at p s)) (leave-asks temp_id device fs from)
      ∙ ap (run call_depth (turns 2)) (
          exchange call_depth ack payload n db_delete (id_query "Device" "deviceId" device)
            (after_query temp_id device (field_of "relay" fs)) s free alive)
      ∙ ap (run call_depth (turns 1)) (
          deletion_failed call_depth temp_id device (field_of "relay" fs) (query_id n) payload
            answered_system (found_new _ _ _) failed)
      ∙ ap (λ c. at (ret tt) (sent_and_told 1 (record s.globals { query_cache = c })))
          (insert_again (query_id n) (dict payload) (str "None") s.globals.query_cache)

  -- By whether the database has deleted the device, and whether the cache has it: the turns until
  -- the handler ends, the error code of the reply, and the globals then.
  abbrev pub turns_left : Bool → Bool → ℕ
  turns_left true true = 6
  turns_left true false = 5
  turns_left false cached = 2

  abbrev pub error_told : Bool → Bool → ℕ
  error_told true true = 0
  error_told true false = 1
  error_told false cached = 1

  abbrev pub globals_left : Bool → Bool → Globals
  globals_left true true = record s.globals { device_cache = erase device s.globals.device_cache }
  globals_left true false = s.globals
  globals_left false cached = kept_query

  -- A leave with a new ID for the query, and a database client that runs and brings an answer: one
  -- query for the deletion is sent, and the handler ends after one reply. If the answer has error 0
  -- and the device is cached, it is no longer, the cache of replies is as before, and the reply has
  -- error 0; if it has error 0 and the device is not cached, the globals are as before, and the
  -- reply has error 1; if it has another error, the answer stays in the cache of replies, nothing
  -- else of the globals changes, and the reply has error 1.
  pub leave_replies :
      device_of temp_id (field_of "relay" fs) ≡ ok (str device)
      → contains (query_id n) s.globals.query_cache ≡ false
      → s.db_alive ≡ true
      → let deleted = is_zero (field_of "error" payload) in
        let cached = contains device s.globals.device_cache in
        run call_depth (leave_events (turns_left deleted cached)) (at (leave temp_id (dict fs)) s)
        ≡ at (ret tt) (sent_and_told (error_told deleted cached) (globals_left deleted cached))
  leave_replies from free alive = elim (Bool-cases (is_zero (field_of "error" payload))) [
    | inr failed ↦ rw failed (leave_keeps_query from free alive failed)
    | inl done ↦ elim (Bool-cases (contains device s.globals.device_cache)) [
      | inl known ↦ rw (done, known) (leave_runs from free alive done known)
      | inr unknown ↦ rw (done, unknown) (leave_refuses_uncached from free alive done unknown)
    ]
  ]
