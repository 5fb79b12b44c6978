-- ===== src/Tests/GenIdTests.antt =====
-- The search for an ID with the broker version of the manager.
use versatile.Base.{String, true, false, ◌≡◌, refl, [], ◌∷◌}
use versatile.Base.Decimal.{decimal}
use versatile.Base.Dict.{contains, lookup}
use versatile.Py.Value.{bool, str, end, field, Fields, field_of, truthy}
use versatile.Broker.Proc.{Proc, ret, fail, publish, attempt}
use versatile.Broker.GenId.{free_flag, join_gen_id}
use versatile.Broker.GenId.Runs.{free_id, gen_events, generated, join_gen_id_runs}
use versatile.Broker.System.{System, run, initial}
use versatile.Broker.System.Finish.{at}

abbrev two_cached : System
two_cached = record initial {
  globals = record initial.globals { device_cache = ("a0", bool true) ∷ ("a4", bool true) ∷ [] };
}

abbrev no_rows : Fields
no_rows = field "data" (str "") end

abbrev told : String → Proc Unit
told id = publish "/configuration/join_ack/a" (str id) (ret tt)

has_no_rows : truthy (field_of "data" no_rows) ≡ false
unfolding truthy field_of
has_no_rows = refl

free_id_test :
    free_id 5 4 "a" "/dbquery/sack/flexMnger" 0 7 no_rows (λ e. fail e) told two_cached ≡ "a8"
unfolding free_flag contains lookup decimal
free_id_test = refl

join_gen_id_runs_example :
    run 5
      (gen_events 5 4 "a" "/dbquery/sack/flexMnger" 0 7 no_rows (λ e. fail e) told two_cached)
      (at (attempt (join_gen_id 5 "a" 0) (λ e. fail e) told) two_cached)
    ≡ at
        (told (free_id 5 4 "a" "/dbquery/sack/flexMnger" 0 7 no_rows (λ e. fail e) told two_cached))
        (generated 5 4 "a" "/dbquery/sack/flexMnger" 0 7 no_rows (λ e. fail e) told two_cached)
unfolding contains lookup
join_gen_id_runs_example =
    join_gen_id_runs 5 4 "a" "/dbquery/sack/flexMnger" 0 7 no_rows (λ e. fail e) told two_cached
      refl refl has_no_rows
