-- ===== src/Tests/SocketTests.antt =====
-- The theorems about the socketIO resolver at concrete inputs.
use mathlib.Core.List.{map}
use versatile.Base.{◌≡◌, ◌⊎◌, refl, true, Bool, ◌==◌, some, [], ◌∷◌, ◌++◌, if◌then◌else◌}
use versatile.Base.Int.{pos}
use versatile.Py.Value.{str, ok, null, Value, dict, number, list_of, Fields, field_of}
use versatile.Py.Text.{repr_int}
use versatile.Py.Text.Number.{to_int}
use versatile.Manager.{fields}
use versatile.Base.Decimal.{decimal}
use versatile.Py.Exec.{gets, modify, ◌>>=◌}
use versatile.Resolver.{Server, Resolver}
use versatile.Resolver.ServiceId as Flask
use versatile.Socket.ServiceId.{gen_service_id}
use versatile.Socket.ServiceId.Agrees.{gen_service_id_agrees}
use versatile.Socket.{SocketResolver, error_message}
use versatile.Socket.Answers.{to_client, chosen, leave_answers, join_answers}
use versatile.Socket.Join.{new_device_id, join_message, join}
use versatile.Socket.Leave.{leave}
use versatile.Socket.Update.{update}
use versatile.Socket.Update.Untyped.{Unknown, update_rejects}
use versatile.Socket.Update.Unknown.{exists_query, update_unknown}
use versatile.Socket.Request.{matching, request}
use versatile.Socket.Request.Matching.{to_all, request_answers}

-- A database whose state is whether it is up. A query for a device finds no row, and every other
-- statement one row with the number 41.
abbrev server : Server
server = record {
  State = Bool;
  connect = λ up. (up, up);
  execute = λ query up.
      (some (if query == exists_query (pos 5) then [] else list_of (number 41 ∷ []) ∷ []), up);
  commit = λ up. (up, up);
}

abbrev up : SocketResolver Bool
up = record { manage_num = 7; db = true; session = []; emitted = [] }

abbrev device_5 : Fields
device_5 = fields (("deviceID", number 5) ∷ [])

its_id : to_int (field_of "deviceID" device_5) ≡ ok (pos 5)
unfolding to_int field_of
its_id = refl

update_unknown_test : update server (dict device_5) up ≡ (ok (error_message 1), up)
unfolding repr_int
update_unknown_test = update_unknown server device_5 (pos 5) up true true its_id refl refl

leave_answers_example :
    let (r, s') = leave server (dict device_5) up in
    (r ≡ ok tt)
    × ((s'.emitted ≡ to_client "Lack" (error_message 0) ∷ [])
        ⊎ (s'.emitted ≡ to_client "Lack" (error_message 1) ∷ []))
leave_answers_example = leave_answers server (dict device_5) up

join_answers_example :
    let (r, s') = join server "token" (dict device_5) up in
    let id = chosen server (new_device_id server up).0 in
    (r ≡ ok tt)
    × ((s'.emitted ≡ to_client "Jack" (join_message 0 id) ∷ [])
        ⊎ (s'.emitted ≡ to_client "Jack" (join_message 1 id) ∷ []))
join_answers_example = join_answers server "token" (dict device_5) up

request_answers_example :
    let (r, s') = request server (dict device_5) up in
    (r ≡ ok tt)
    × (((service_type : Value) × (s'.emitted
            ≡ map (to_all "MatchingRequest") (matching service_type)
              ++ to_client "Rack" (error_message 0) ∷ []))
        ⊎ (s'.emitted ≡ to_client "Rack" (error_message 1) ∷ []))
request_answers_example = request_answers server (dict device_5) up

abbrev image_service : Fields
image_service = fields (("serviceType", str "ImageTransfer") ∷ ("attributes", list_of []) ∷ [])

abbrev image_update : Fields
image_update =
    fields
      (("deviceID", number 41) ∷ ("services", list_of (dict image_service ∷ str "x" ∷ [])) ∷ [])

image_type : field_of "serviceType" image_service ≡ str "ImageTransfer"
unfolding field_of
image_type = refl

image_services : field_of "services" image_update ≡ list_of (dict image_service ∷ str "x" ∷ [])
unfolding field_of
image_services = refl

update_rejects_example :
    let (r, s') = update server (dict image_update) up in
    ((s'.emitted ≡ to_client "Uack" (error_message 1) ∷ [])
      × (r ≡ ok null)
      × ¬ Unknown server image_update up)
    ⊎ ((s'.emitted ≡ []) × (r ≡ ok (error_message 1)) × Unknown server image_update up)
update_rejects_example =
    update_rejects server image_service (str "x" ∷ []) image_update image_type image_services up

abbrev flask_up : Resolver Bool
flask_up = record { manage_num = 7; db = true }

web_id : (Flask.gen_service_id server (str "Web") flask_up).0 ≡ ok (str "100080")
unfolding Flask.gen_service_id Flask.service_id Flask.four_digits decimal gets modify ◌>>=◌
web_id = refl

gen_service_id_agrees_test :
    ((gen_service_id server (str "Web") up).0 ≡ ok (str "100080"))
    × ((gen_service_id server (str "Web") up).1.manage_num
        ≡ (Flask.gen_service_id server (str "Web") flask_up).1.manage_num)
gen_service_id_agrees_test =
    gen_service_id_agrees server (str "Web") "100080" flask_up up refl web_id
