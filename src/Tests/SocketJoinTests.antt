-- ===== src/Tests/SocketJoinTests.antt =====
-- A join of the socketIO service, with a database that keeps what it is sent.
use mathlib.Core.List.{Forall₂}
use versatile.Base.{◌≡◌, refl, some, [], ◌∷◌}
use versatile.Base.Dict.{contains, insert, lookup}
use versatile.Py.Value.{ok, str, number, list_of, dict, Fields, field_of}
use versatile.Py.Text.{repr_int}
use versatile.Py.Text.Number.{to_int}
use versatile.Manager.{fields}
use versatile.Resolver.Join.{next_id, relay_text}
use versatile.Resolver.Join.Identity.{largest_id_query}
use versatile.Socket.Answers.{to_client}
use versatile.Socket.Mirror.{beside}
use versatile.Socket.Join.{join, join_message}
use versatile.Socket.Join.Rows.{Neighbor}
use versatile.Socket.Join.Stored.{join_inserts}
use versatile.Tests.StoredTests.{keeper, ready, wired, wired_fields}

abbrev near : Neighbor
near = record { iface = some "none"; ip = some "none"; hardware = some "cc:dd" }

abbrev near_fields : Fields
near_fields = fields (
    ("neighborIface", str "none")
    ∷ ("neighborIpv4", str "none")
    ∷ ("neighborHwAddress", str "cc:dd")
    ∷ [])

abbrev hello : Fields
hello = fields (
    ("relay", str "none")
    ∷ ("neighbors", list_of (dict near_fields ∷ []))
    ∷ ("uniqueCodes", list_of (dict wired_fields ∷ []))
    ∷ [])

join_inserts_example : join keeper "t0" (dict hello) (beside keeper [] [] ready) ≡ (
  ok tt,
  record {
    manage_num = 7;
    db =
        largest_id_query
        ∷ "INSERT into Neighbor (deviceID, neighborIface, neighborIpv4, neighborHwAddress) values ('42', 'NULL', 'none', 'cc:dd')"
        ∷ "INSERT into Device (deviceID, interface, mac, ip, wifiSSID, relay) values ('42', 'eth', 'aa:bb', 'NULL', 'NULL', 'none')"
        ∷ [];
    session = ("session", "t0") ∷ ("username", "42") ∷ [];
    emitted = to_client "Jack" (join_message 0 "42") ∷ [];
  },
)
unfolding field_of next_id to_int repr_int relay_text contains insert lookup
join_inserts_example =
    join_inserts keeper "t0" "42" "none" hello (dict near_fields ∷ []) (dict wired_fields ∷ [])
      (near ∷ []) (wired ∷ []) (number 41) [] [] ready [] (largest_id_query ∷ []) refl refl refl
      refl refl (Forall₂.cons (near_fields, refl, refl, refl, refl) Forall₂.nil) refl
      (Forall₂.cons (wired_fields, refl, refl, refl, refl, refl) Forall₂.nil)
