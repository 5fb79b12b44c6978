-- ===== src/Tests/SocketRequestTests.antt =====
-- A request to the socketIO service, with a database that keeps what it is sent.
use mathlib.Core.List.{Forall₂}
use versatile.Base.{◌≡◌, refl, true, [], ◌∷◌}
use versatile.Py.Value.{ok, str, number, list_of, dict, Fields, field_of}
use versatile.Py.Text.{repr_int}
use versatile.Py.Text.Number.{to_int}
use versatile.Manager.{fields}
use versatile.Resolver.Join.{next_id}
use versatile.Resolver.Request.Stored.{largest_service}
use versatile.Socket.Mirror.{beside}
use versatile.Socket.Request.{request}
use versatile.Socket.Request.Stored.{largest_request, rack, request_inserts}
use versatile.Tests.StoredTests.{keeper, ready, fast, fast_fields}

abbrev wish : Fields
wish = fields (
    ("deviceID", str "41")
    ∷ ("serviceType", str "Streaming")
    ∷ ("keywords", str "music")
    ∷ ("qosRequirements", list_of (dict fast_fields ∷ []))
    ∷ [])

request_inserts_example : request keeper (dict wish) (beside keeper [] [] ready) ≡ (
  ok tt,
  record {
    manage_num = 7;
    db =
        largest_request ∷ largest_service
        ∷ "INSERT into Request (requestID, deviceID, serviceID) values ('42', '41', '100010')"
        ∷ "INSERT into QosRequirement (requestID, metricName, metricUnit, metricValue, metricOperator) values ('42', 'delay', 'ms', '10', 'lt')"
        ∷ [];
    session = [];
    emitted = rack "Streaming" true;
  },
)
unfolding field_of next_id to_int repr_int
request_inserts_example =
    request_inserts keeper [] [] wish "42" "41" "100010" "Streaming" "music" (dict fast_fields ∷ [])
      (fast ∷ []) (number 41) ready [] (largest_request ∷ [])
      (largest_request ∷ largest_service ∷ []) refl refl refl refl
      (Forall₂.cons (fast_fields, refl, refl, refl, refl, refl) Forall₂.nil) refl refl refl refl
