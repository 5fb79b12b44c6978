-- ===== src/Tests/StoredTests.antt =====
-- Requests to the Flask resolver, with a database that keeps what it is sent.
use mathlib.Core.List.Forall₂
use versatile.Base.{String, ◌≡◌, refl, true, none, some, List, [], ◌∷◌, ◌++◌, ◌==◌, if◌then◌else◌}
use versatile.Base.Int.{pos}
use versatile.Py.Value.{ok, Value, null, str, number, list_of, dict, Fields, field_of, get}
use versatile.Py.Text.{repr_int, to_str}
use versatile.Py.Text.Number.{to_int}
use versatile.Manager.{fields}
use versatile.Socket
use versatile.Socket.Mirror.{beside}
use versatile.Socket.Update.Agrees.{Told, update_agrees}
use versatile.Resolver.ServiceId.Unique.{ServiceType}
use versatile.Resolver.{Server, Resolver, text}
use versatile.Resolver.ServiceId.{service_id, four_digits}
use versatile.Resolver.Join.{next_id, relay_text, id_reply, join}
use versatile.Resolver.Join.Identity.{largest_id_query}
use versatile.Resolver.Join.Stored.{Interface, join_lem}
use versatile.Resolver.Update.{error_reply, update}
use versatile.Resolver.Update.Offer.{Offer}
use versatile.Resolver.Update.Stored.{columns_query, update_lem}
use versatile.Resolver.Request.{request}
use versatile.Resolver.Request.Stored.{Requirement, largest_request, largest_service, request_lem}

-- Two columns for attributes, the device 41, the service 100010, and no request.
abbrev answers : String → List Value
answers query =
    if query == columns_query
    then list_of (number 6 ∷ []) ∷ []
    else if query == largest_request
    then list_of (null ∷ []) ∷ []
    else if query == largest_service
    then list_of (str "100010" ∷ []) ∷ []
    else list_of (number 41 ∷ []) ∷ []

abbrev pub keeper : Server
keeper = record {
  State = List String;
  connect = λ log. (true, log);
  execute = λ query log. (some (answers query), log ++ (query ∷ []));
  commit = λ log. (true, log);
}

abbrev pub ready : Resolver (List String)
ready = record { manage_num = 7; db = [] }

-- A device that offers a service with three attributes.
abbrev web : Offer
web = record { kind = "Web"; attributes = "a" ∷ "b" ∷ "c" ∷ [] }

abbrev web_fields : Fields
web_fields =
    fields
      (("serviceType", str "Web") ∷ ("attributes", list_of (str "a" ∷ str "b" ∷ str "c" ∷ [])) ∷ [])

abbrev offers : Fields
offers = fields (("deviceID", number 41) ∷ ("services", list_of (dict web_fields ∷ [])) ∷ [])

update_lem_example : update keeper (dict offers) ready ≡ (
  ok (error_reply 0),
  record {
    manage_num = 8;
    db =
        "SELECT dummyID from Device where deviceID='41'" ∷ columns_query
        ∷ "ALTER table Service add attr3 varchar(50) default '.'"
        ∷ "INSERT into Service (serviceID, deviceID, serviceType, attr1, attr2, attr3) values ('100080', '41', 'Web', 'a', 'b', 'c')"
        ∷ [];
  },
)
unfolding field_of to_int repr_int service_id four_digits to_str
update_lem_example =
    update_lem keeper offers (pos 41) 2 (dict web_fields ∷ []) (web ∷ []) (list_of (number 41 ∷ []))
      [] ready [] ("SELECT dummyID from Device where deviceID='41'" ∷ [])
      ("SELECT dummyID from Device where deviceID='41'" ∷ columns_query ∷ []) refl refl
      (Forall₂.cons (web_fields, refl, refl, refl) Forall₂.nil) refl refl refl

-- A device that asks for a service with one requirement.
abbrev pub fast : Requirement
fast = record { metric = "delay"; measure = "ms"; amount = "10"; relation = "lt" }

abbrev pub fast_fields : Fields
fast_fields = fields (
    ("metricName", str "delay")
    ∷ ("metricUnit", str "ms")
    ∷ ("metricValue", str "10")
    ∷ ("metricOperator", str "lt")
    ∷ [])

abbrev wish : Fields
wish = fields (("deviceID", str "41") ∷ ("qosRequirements", list_of (dict fast_fields ∷ [])) ∷ [])

request_lem_example : request keeper (dict wish) ready ≡ (
  ok (text "Good"),
  record {
    manage_num = 7;
    db =
        largest_request ∷ largest_service
        ∷ "INSERT into Request (requestID, deviceID, serviceID) values ('1', '41', '100010')"
        ∷ "INSERT into QosRequirement (requestID, metricName, metricUnit, metricValue, metricOperator) values ('1', 'delay', 'ms', '10', 'lt')"
        ∷ [];
  },
)
unfolding field_of next_id
request_lem_example =
    request_lem keeper wish "1" "41" "100010" (dict fast_fields ∷ []) (fast ∷ []) null ready []
      (largest_request ∷ []) (largest_request ∷ largest_service ∷ []) refl refl
      (Forall₂.cons (fast_fields, refl, refl, refl, refl, refl) Forall₂.nil) refl refl refl refl

-- A device with one interface.
abbrev pub wired : Interface
wired = record { kind = some "eth"; hardware = "aa:bb"; ip = none; ssid = none }

abbrev pub wired_fields : Fields
wired_fields = fields (("ifaceType", str "eth") ∷ ("hwAddress", str "aa:bb") ∷ [])

abbrev hello : Fields
hello = fields (("uniqueCodes", list_of (dict wired_fields ∷ [])) ∷ [])

join_lem_example : join keeper (dict hello) ready ≡ (
  ok (id_reply keeper 0 "42"),
  record {
    manage_num = 7;
    db =
        largest_id_query
        ∷ "INSERT into Device (deviceID, interface, mac, ip, wifiSSID, relay) values ('42', 'eth', 'aa:bb', '.', '.', 'none')"
        ∷ [];
  },
)
unfolding field_of next_id to_int repr_int relay_text
join_lem_example =
    join_lem keeper hello "42" "none" (dict wired_fields ∷ []) (wired ∷ []) (number 41) ready []
      (largest_id_query ∷ []) refl refl refl refl refl
      (Forall₂.cons (wired_fields, refl, refl, refl, refl, refl) Forall₂.nil)

update_agrees_example :
    Told keeper
      (("username", "41") ∷ [])
      []
      (Socket.Update.update keeper (dict offers) (beside keeper (("username", "41") ∷ []) [] ready))
      (update keeper (dict offers) ready)
unfolding field_of get
update_agrees_example =
    update_agrees keeper (("username", "41") ∷ []) [] offers (dict web_fields ∷ [])
      (ServiceType.web ∷ []) refl (Forall₂.cons refl Forall₂.nil) ready
