-- ===== src/Tests/LeaveTests.antt =====
-- Runs of `leave` with the broker version of the manager, and its search for a flag.
use versatile.Base.{ℕ, ◌+◌, ◌*◌, ◌<◌, ◌≡◌, refl, true, false, [], ◌∷◌}
use versatile.Base.Decimal.{decimal}
use versatile.Base.Dict.{Dict, contains, erase, lookup}
use versatile.Py.Value.{ok, Value, bool, str, dict, end, field, number, Fields, field_of}
use versatile.Manager.Device.{device_of}
use versatile.Broker.Proc.{ret}
use versatile.Broker.Leave.{leave}
use versatile.Broker.Leave.Runs.{leave_events, sent_and_told, leave_replies}
use versatile.Broker.GenId.{flagged, free_flag}
use versatile.Broker.GenId.Search.{free_flag_first}
use versatile.Broker.System.{System, run, initial}
use versatile.Broker.System.Finish.{at}

abbrev sent : Fields
sent = field "relay" (str "none") end

abbrev deleted : Fields
deleted = field "error" (number 0) end

abbrev has_device : System
has_device = record initial {
  globals = record initial.globals { device_cache = ("0a3", bool true) ∷ [] };
}

its_device : device_of "0a3" (field_of "relay" sent) ≡ ok (str "0a3")
unfolding device_of field_of
its_device = refl

leave_replies_example :
    run 5
      (leave_events 5 "0a3" "0a3" "/dbquery/dack/flexMnger" sent deleted 7 has_device 6)
      (at (leave "0a3" (dict sent)) has_device)
    ≡ at (ret tt) (
        sent_and_told 5 "0a3" "0a3" "/dbquery/dack/flexMnger" sent deleted 7 has_device 0
          initial.globals)
unfolding contains lookup erase field_of
leave_replies_example =
    leave_replies 5 "0a3" "0a3" "/dbquery/dack/flexMnger" sent deleted 7 has_device its_device refl
      refl

abbrev two_cached : Dict Value
two_cached = ("a0", bool true) ∷ ("a4", bool true) ∷ []

free_flag_first_example :
    (k : ℕ) × (free_flag two_cached "a" 0 ≡ 0 + 4 * k)
    × (contains (flagged "a" (free_flag two_cached "a" 0)) two_cached ≡ false)
    × ((i : ℕ) → i < k → contains (flagged "a" (0 + 4 * i)) two_cached ≡ true)
free_flag_first_example = free_flag_first two_cached "a" 0

free_flag_test : free_flag two_cached "a" 0 ≡ 8
unfolding free_flag contains lookup decimal
free_flag_test = refl
