-- ===== src/Tests/ResolverTests.antt =====
-- The theorems about the Flask resolver at concrete inputs.
use versatile.Base.{ℕ, ◌≡◌, ◌≢◌, refl, true, false, Bool, some, [], ◌∷◌}
use versatile.Base.Int.{pos}
use versatile.Base.Decimal.{decimal}
use versatile.Py.Value.{name_error, ok, err, Value, str, number, list_of, Fields, field_of, first}
use versatile.Py.Text.Number.{to_int}
use versatile.Manager.{fields}
use versatile.Resolver.{Server, Resolver, connect, execute, only_cell}
use versatile.Resolver.ServiceId.{gen_service_id}
use versatile.Resolver.ServiceId.Unique.{web, voice}
use versatile.Resolver.Counter.{joining, leaving, session, gen_service_id_distinct}
use versatile.Resolver.Join.{id_reply, join, new_device_id, next_id}
use versatile.Py.Text.{repr_int}
use versatile.Py.Exec.{◌>>=◌}
use versatile.Resolver.Join.Identity.{join_replies}
use versatile.Resolver.Update.{error_reply}
use versatile.Resolver.Leave.Joined.{leave_joined}
use versatile.Resolver.Leave.{leave}
use versatile.Resolver.Leave.Statements.{leave_lem}

-- A database whose state is whether it is up. Every statement finds one row with the number 41.
abbrev server : Server
server = record {
  State = Bool;
  connect = λ up. (up, up);
  execute = λ query up. (some (list_of (number 41 ∷ []) ∷ []), up);
  commit = λ up. (up, up);
}

abbrev up : Resolver Bool
up = record { manage_num = 7; db = true }

abbrev down : Resolver Bool
down = record { manage_num = 7; db = false }

abbrev device_41 : Fields
device_41 = fields (("deviceID", number 41) ∷ [])

its_id : to_int (field_of "deviceID" device_41) ≡ ok (pos 41)
unfolding to_int field_of
its_id = refl

leave_lem_example : leave server (Value.dict device_41) up ≡ (ok (error_reply 0), up)
leave_lem_example = leave_lem server device_41 (pos 41) up its_id

join_replies_example :
    (error : ℕ) × ((join server (str "no dict") up).0 ≡ ok (id_reply server error (decimal 42)))
join_replies_example = join_replies server (str "no dict") 41 up true true true refl refl

leaving_42 : field_of "deviceID" (fields (("deviceID", str "42") ∷ [])) ≡ str "42"
unfolding field_of
leaving_42 = refl

chosen_42 : (new_device_id server up).0 ≡ ok "42"
unfolding new_device_id connect execute only_cell first next_id to_int repr_int ◌>>=◌
chosen_42 = refl

leave_joined_example :
    leave server (Value.dict (fields (("deviceID", str "42") ∷ []))) up ≡ (ok (error_reply 0), up)
leave_joined_example =
    leave_joined server 41 up up true true "42" (fields (("deviceID", str "42") ∷ [])) refl refl
      chosen_42 leaving_42

join_refused_test : (error : ℕ) × ((join server (str "no dict") down).0 ≡ err name_error)
join_refused_test = join_replies server (str "no dict") 41 down false false false refl refl

gen_service_id_distinct_example :
    (gen_service_id server (str "Web") up).0
    ≢ (gen_service_id server (str "Voice") (
        session server
          (joining (str "x") ∷ leaving (str "y") ∷ [])
          (gen_service_id server (str "Web") up).1)).0
gen_service_id_distinct_example =
    gen_service_id_distinct server web voice (joining (str "x") ∷ leaving (str "y") ∷ []) up
