-- ===== src/Tests/IdsTests.antt =====
-- Two joins with one temporary ID, and a leave between them.
use versatile.Base.{String, ◌≡◌, refl, Option, some, List, [], ◌∷◌}
use versatile.Base.Decimal.{decimal}
use versatile.Base.Dict.{contains, insert}
use versatile.Py.Value.{
  Value, dict, str, list_of, truthy, get, as_text, subscript, first, items, iterate, sequence,
}
use versatile.Py.Exec.{◌>>=◌, traverse, try_except}
use versatile.Py.Text.{split}
use versatile.Manager.{fields, cache_device, execute, commit, publish}
use versatile.Manager.Database.{db_proc, send_db_query}
use versatile.Manager.Dispatch.{on_message}
use versatile.Manager.Dispatch.Ids.{given_ids, AllDiffer, AllCached}
use versatile.Manager.Dispatch.Cache.{on_messages, on_messages_distinct_ids}
use versatile.Manager.Join.{join, join_work}
use versatile.Manager.Leave.{leave, leave_work}
use versatile.Manager.Device.{answer}
use versatile.Manager.GenId.{join_gen_id, free_flag}
use versatile.Manager.Join.Fresh.{id_of}
use versatile.Tests.Sample.{sample, start}

abbrev joining : Option Value
joining = some (
    dict (
      fields
        (("relay", str "none") ∷ ("uniqueCodes", list_of []) ∷ ("neighbors", list_of []) ∷ [])))

abbrev joins : List (String × Option Value)
joins =
    ("/configuration/join/a3", joining)
    ∷ ("/configuration/leave/0a3", joining)
    ∷ ("/configuration/join/a3", joining)
    ∷ []

joins_test : given_ids (on_messages sample joins (start [])).published ≡ "0a3" ∷ "4a3" ∷ []
unfolding on_message id_of ◌>>=◌ split join get answer try_except join_work join_gen_id as_text
    cache_device db_proc subscript first items execute truthy leave leave_work send_db_query
    contains decimal publish iterate traverse sequence commit free_flag insert
joins_test = refl

on_messages_distinct_ids_example :
    let s = on_messages sample joins (start []) in
    AllDiffer (given_ids s.published) × AllCached (given_ids s.published) s.device_cache
on_messages_distinct_ids_example = on_messages_distinct_ids sample joins (start []) refl
