-- ===== src/Broker/System/Stuck.antt =====
-- What happens to a handler that waits after the thread of the database client has ended.
use mathlib.Core.Path.{subst}
use versatile.Base.{sym, if◌then◌else◌, ℕ, String, ◌≡◌, refl, Bool, true, false, List, [], ◌∷◌}
use versatile.Base.Dict.{lookup}
use versatile.Py.Value.{Value}
use versatile.Broker.Proc.{Proc, wait}
use versatile.Broker.System.{
  System, Event, turn, message, db_message, connected, db_connected, is_pending, advance, step, run,
}

module _ (call_depth : ℕ) (id : String) (f : Bool → Proc Unit) (sent : List (String × Value)) where
  abbrev Waits : System → Type 0
  Waits s =
      (s.running ≡ wait id f)
      × (is_pending (lookup id s.globals.query_cache) ≡ true)
      × (s.db_alive ≡ false)
      × (s.published ≡ sent)

  turn_of_wait : (n : ℕ) (s : System) → Waits s → Waits (advance call_depth n (wait id f) s)
  unfolding advance
  turn_of_wait n s (here, pending, dead, all) = rw pending (here, pending, dead, all)

  turn-Waits : (n : ℕ) (s : System) → Waits s → Waits (advance call_depth n s.running s)
  turn-Waits n s (here, pending, dead, all) =
      subst (λ (p : Proc Unit). Waits (advance call_depth n p s)) (sym here)
        (turn_of_wait n s (here, pending, dead, all))

  not_stored :
      (alive : Bool) (stored s : System)
      → alive ≡ false
      → Waits s
      → Waits (if alive then stored else s)
  not_stored false stored s h w = w
  not_stored true stored s h w = cc

  step-Waits : (e : Event) (s : System) → Waits s → Waits (step call_depth e s)
  unfolding step
  step-Waits (turn n) s w = turn-Waits n s w
  step-Waits (message topic payload) s w = w
  step-Waits (db_message topic payload) s (here, pending, dead, all) =
      not_stored s.db_alive _ s dead (here, pending, dead, all)
  step-Waits connected s w = w
  step-Waits db_connected s w = w

  run-Waits : (es : List Event) (s : System) → Waits s → Waits (run call_depth es s)
  unfolding run
  run-Waits [] s w = w
  run-Waits (e ∷ es) s w = run-Waits es (step call_depth e s) (step-Waits e s w)

-- If the thread of the database client has ended while a handler waits for an entry that is "None", the
-- handler waits for ever, whatever events follow, and nothing more is published to the clients.
pub waits_for_ever :
    (call_depth : ℕ) (id : String) (f : Bool → Proc Unit) (s : System) (es : List Event)
    → s.running ≡ wait id f
    → is_pending (lookup id s.globals.query_cache) ≡ true
    → s.db_alive ≡ false
    → ((run call_depth es s).running ≡ wait id f) × ((run call_depth es s).published ≡ s.published)
waits_for_ever call_depth id f s es here pending dead =
    let (still, waiting, ended, all) =
      run-Waits call_depth id f s.published es s (here, pending, dead, refl) in
    (still, all)
