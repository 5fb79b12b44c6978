-- ===== src/Tests/ManagerTests.antt =====
-- The theorems about the manager at concrete inputs, and runs of its handlers.
use versatile.Base.{ℕ, zero, suc, ◌<◌, String, ◌≡◌, refl, true, false, some, List, [], ◌∷◌, arith}
use versatile.Base.Chars.{has_char}
use versatile.Base.Decimal.{decimal}
use versatile.Py.Value.{ok, Value, null, bool, str, dict, list_of, Fields, number, field_of, truthy}
use versatile.Py.Text.{to_str}
use versatile.Py.Text.{encode_all, str_bytes, replace_quote, repr}
use versatile.Py.Exec.{pure, traverse, ◌>>◌}
use versatile.Manager.{Manager, dict_of, fields, execute, commit}
use versatile.Manager.Database.{db_insert, db_proc, insert_text}
use versatile.Manager.Database.Statements.{
  intercalate, insert_assignments, insert_statement, insert_statements, db_proc-insert,
}
use versatile.Manager.Database.Lookup.{IsPlain}
use versatile.Manager.GenId.{gen_flag, register_gen_id}
use versatile.Manager.GenId.Flag.{gen_flag_lem}
use versatile.Manager.GenId.FreeFlag.{candidate}
use versatile.Manager.GenId.Providing.{register_gen_id_lem}
use versatile.Manager.Leave.{leave}
use versatile.Manager.Leave.Fails.{leave_fails}
use versatile.Manager.Update.{update}
use versatile.Manager.Update.Fails.{update_fails}
use versatile.Manager.Join.{join}
use versatile.Manager.Join.Fails.{join_fails}
use versatile.Manager.Dispatch.{on_message}
use versatile.Manager.Dispatch.Routes.{querying, on_message_answers}
use versatile.Tests.Sample.{sample, held, sample-IsLookup, start}

gen_flag_example : gen_flag (bool true) null 3 ≡ ok 140
unfolding truthy
gen_flag_example = gen_flag_lem (bool true) null 3

abbrev two_devices : List String
two_devices =
    "SELECT * FROM Device WHERE deviceId = '0a3'" ∷ "SELECT * FROM Device WHERE deviceId = '8a3'"
    ∷ []

-- '0a3' is in the database, '4a3' in the cache and '8a3' in the database.
abbrev crowded : Manager (List String)
crowded = record (start two_devices) { device_cache = ("4a3", bool true) ∷ [] }

-- '192x' and '196x' are registered.
abbrev two_services : List String
two_services =
    "SELECT * FROM RegisterList WHERE providingId = '192x'"
    ∷ "SELECT * FROM RegisterList WHERE providingId = '196x'" ∷ []

x-IsPlain : IsPlain "x"
unfolding has_char
x-IsPlain = record { no_quote = refl; no_backslash = refl }

services_used :
    (i : ℕ) → i < 2 → held "RegisterList" "providingId" two_services (candidate "x" 192 i) ≡ true
unfolding decimal
services_used zero h = refl
services_used (suc zero) h = refl
services_used (suc (suc i)) h = absurd (omega arith)

services_free : held "RegisterList" "providingId" two_services (candidate "x" 192 2) ≡ false
unfolding decimal
services_free = refl

register_gen_id_lem_example :
    register_gen_id sample 20 (str "x") 192 (start two_services)
    ≡ (ok (candidate "x" 192 2), start two_services)
register_gen_id_lem_example =
    register_gen_id_lem sample (sample-IsLookup "RegisterList" "providingId") "x" x-IsPlain
      (start two_services) 20 192 2 (omega arith) services_used (λ h. services_free)

abbrev no_relay : Fields
no_relay = fields (("relay", str "none") ∷ ("updateID", str "u1") ∷ ("neighbors", null) ∷ [])

leave_fails_example : leave sample "a3" (dict no_relay) crowded ≡ (
  ok tt,
  record crowded {
    published =
        (
          "/configuration/leave_ack/a3",
          dict_of (("error:", number 1) ∷ ("relay", field_of "relay" no_relay) ∷ []),
        )
        ∷ [];
  },
)
leave_fails_example = leave_fails sample "a3" no_relay crowded

update_fails_example :
    let (r, s') = update sample "a3" (dict no_relay) crowded in
    (r ≡ ok tt)
    × (s'.published
        ≡ (
          "/configuration/update_ack/a3",
          dict_of (
              ("error", number 1)
              ∷ ("updateID", field_of "updateID" no_relay)
              ∷ ("relay", field_of "relay" no_relay)
              ∷ []),
        )
          ∷ [])
update_fails_example = update_fails sample "a3" no_relay crowded

no_neighbors : field_of "neighbors" no_relay ≡ null
unfolding field_of
no_neighbors = refl

join_fails_example :
    let (r, s') = join sample "a3" (dict no_relay) crowded in
    (r ≡ ok tt)
    × (s'.published
        ≡ (
          "/configuration/join_ack/a3",
          dict_of (
              ("error:", number 1)
              ∷ ("deviceID", str "a3")
              ∷ ("relay", field_of "relay" no_relay)
              ∷ []),
        )
          ∷ [])
join_fails_example = join_fails sample no_relay no_neighbors "a3" crowded

no_slash : has_char b'/' "a3" ≡ false
unfolding has_char
no_slash = refl

on_message_answers_example :
    let (r, s') = on_message sample "/utilization/query/a3" (some (dict no_relay)) crowded in
    (r ≡ ok tt) × ((reply : Value) × (s'.published ≡ ("/utilization/reply/a3", reply) ∷ []))
on_message_answers_example = on_message_answers sample querying "a3" no_relay crowded no_slash

abbrev interface_row : Value
interface_row =
    dict_of (
      ("deviceId", str "0a3")
      ∷ ("relay", list_of (str "r1" ∷ str "r'2" ∷ []))
      ∷ ("ipv4", null)
      ∷ [])

abbrev interface_statement : String
interface_statement =
    "INSERT INTO Device SET deviceId = '0a3', relay = '[b\\'r1\\', b\"r\\'2\"]', ipv4 = 'None'"

interface_row_statement :
    insert_statements sample "Device" (interface_row ∷ []) ≡ ok (interface_statement ∷ [])
unfolding insert_statements insert_statement insert_assignments insert_text intercalate encode_all
    str_bytes replace_quote to_str repr
interface_row_statement = refl

db_proc-insert_example :
    db_proc sample db_insert
      (dict_of (("table", str "Device") ∷ ("data", list_of (interface_row ∷ [])) ∷ []))
      crowded
    ≡ (traverse (execute sample) (interface_statement ∷ [])
          >> (commit sample >> pure (dict_of (("error", number 0) ∷ []))))
        crowded
db_proc-insert_example =
    db_proc-insert sample "Device" (interface_row ∷ []) (interface_statement ∷ []) crowded
      interface_row_statement
