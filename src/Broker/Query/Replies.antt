-- ===== src/Broker/Query/Replies.antt =====
-- What `query` of the broker version publishes to the client.
use mathlib.Core.List.{Memᴰ}
use versatile.Base.{true, String, ◌<>◌, ◌≡◌, refl, ◌⊎◌, inl, inr, List, [], ◌∷◌}
use versatile.Py.Value.{Value, dict, str, list_of, number, Fields, field_of, get}
use versatile.Manager.{dict_of}
use versatile.Broker.Proc.{Proc, lift, attempt, ◌>>=◌, ◌>>◌}
use versatile.Broker.Database.{db_select, send_db_query, entry, forget_query, require_some}
use versatile.Broker.Sends.{
  Local, local_rules, Sends, sends_publish, Sends-attempt, Sends-send, Sends-if,
}
use versatile.Broker.Query.{
  query_topic, device_query, refuse, read_requirement, read_query, search_ids, check_device,
  find_device, query,
}

find_device-Local : (temp_id : String) (relay : Value) → Local (find_device temp_id relay)
unfolding find_device
find_device-Local temp_id relay = search local_rules depth 20

read_requirement-Local : (req : Value) → Local (read_requirement req)
unfolding read_requirement
read_requirement-Local req = search local_rules depth 20

read_query-Local : (payload : Value) → Local (read_query payload)
unfolding read_query
read_query-Local payload = search (local_rules, read_requirement-Local) depth 40

entry-Local : (id : String) → Local (entry id)
unfolding entry
entry-Local id = search local_rules depth 8

forget_query-Local : (id : String) → Local (forget_query id)
unfolding forget_query
forget_query-Local id = search local_rules depth 8

require_some-Local : (v : Value) (text : String) → Local (require_some v text)
unfolding require_some
require_some-Local v text = search local_rules depth 8

check_device-Local : (id : String) (device : Value) → Local (check_device id device)
unfolding check_device
check_device-Local id device =
    search (local_rules, entry-Local, forget_query-Local, require_some-Local) depth 20

read_rows-Local :
    (id : String) → Local (do db_payload ← entry id; lift (get db_payload "data"); forget_query id)
read_rows-Local id = search (local_rules, entry-Local, forget_query-Local) depth 12

-- The topic of a query for a device.
abbrev select_topic : String → String
select_topic id = db_select <> "/" <> id

abbrev refusal : Value → Value → Value
refusal relay id = dict_of (("error", number 1) ∷ ("queryID", id) ∷ ("relay", relay) ∷ [])

abbrev results : Value → String → Value → Value
results relay id desc = dict_of (
    ("error:", number 0)
    ∷ ("queryID", str id)
    ∷ ("desc", desc)
    ∷ ("ids", list_of (str "TempId1" ∷ str "TempId2" ∷ []))
    ∷ ("relay", relay)
    ∷ [])

-- The ID of a refusal is that of the request, or that of a query that has been sent.
abbrev IsHeld : Value → List String → Value → Type 0
IsHeld request_id sent held =
    (held ≡ request_id) ⊎ ((id : String) × (held ≡ str id) × Memᴰ (select_topic id) sent)

-- A reply of `query`, with the topics of the queries that have been sent, the last one first: it is
-- the refusal, or it has the ID of the last query.
abbrev pub QueryReply : String → Value → Value → List String → String → Value → Type 0
QueryReply temp_id relay request_id sent topic m =
    (topic ≡ query_topic temp_id)
    × (((held : Value) × (m ≡ refusal relay held) × IsHeld request_id sent held)
        ⊎ ((id : String) × (desc : Value) × (earlier : List String) × (m ≡ results relay id desc)
            × (sent ≡ select_topic id ∷ earlier)))

module _ (temp_id : String) (relay request_id : Value) where
  abbrev Replies : List String → Proc Unit → Type 0
  Replies sent p = Sends (QueryReply temp_id relay request_id) sent p

  still-IsHeld :
      (topic : String) (sent : List String) (held : Value)
      → IsHeld request_id sent held
      → IsHeld request_id (topic ∷ sent) held
  still-IsHeld topic sent held (inl e) = inl e
  still-IsHeld topic sent held (inr (id, e, m)) = inr (id, e, Memᴰ.tail m)

  last-IsHeld :
      (id : String) (sent : List String) → IsHeld request_id (select_topic id ∷ sent) (str id)
  last-IsHeld id sent = inr (id, refl, Memᴰ.head refl)

  refuse-Replies :
      (sent : List String) (held : Value)
      → IsHeld request_id sent held
      → Replies sent (refuse temp_id relay held)
  unfolding refuse
  refuse-Replies sent held h = sends_publish _ _ _ (refl, inl (held, refl, h))

  search_ids-Replies :
      (payload device held : Value) (sent : List String)
      → IsHeld request_id sent held
      → Replies sent (search_ids temp_id payload relay device held)
  unfolding search_ids
  search_ids-Replies payload device held sent h =
      Sends-attempt sent _ _ _ (read_query-Local payload) (λ e. refuse-Replies sent held h)
        λ desc.
          Sends-send sent _ db_select _ _
            (λ id e. refuse-Replies _ held (still-IsHeld _ sent held h))
            λ id.
              Sends-attempt _ _ _ _ (read_rows-Local id)
                (λ e. refuse-Replies _ (str id) (last-IsHeld id sent))
                λ done. sends_publish _ _ _ (refl, inr (id, desc, sent, refl, refl))

  check-Replies :
      (payload device held : Value) (sent : List String)
      → IsHeld request_id sent held
      → Replies sent (
          attempt
            (send_db_query (device_query device) db_select true)
            (λ e. refuse temp_id relay held)
            (λ id.
              attempt
                (check_device id device)
                (λ e. refuse temp_id relay (str id))
                (λ known. search_ids temp_id payload relay device (str id))))
  check-Replies payload device held sent h =
      Sends-send sent _ db_select _ _ (λ id e. refuse-Replies _ held (still-IsHeld _ sent held h))
        λ id.
          Sends-attempt _ _ _ _ (check_device-Local id device)
            (λ e. refuse-Replies _ (str id) (last-IsHeld id sent))
            λ known. search_ids-Replies payload device (str id) _ (last-IsHeld id sent)

-- Every path through query of the broker version with a payload that is a dict publishes one
-- message, on the reply topic, and then returns: a refusal, with the 'queryID' of the request or
-- the ID of a query that it has sent to the database, or a reply whose 'queryID' is the ID of the
-- last query that it has sent.
pub query_replies :
    (temp_id : String) (fs : Fields)
    → Sends
        (QueryReply temp_id (field_of "relay" fs) (field_of "queryID" fs))
        []
        (query temp_id (dict fs))
unfolding query get ◌>>=◌
query_replies temp_id fs =
    let relay = field_of "relay" fs in
    let request_id = field_of "queryID" fs in
    Sends-attempt [] _ _ _ (find_device-Local temp_id relay)
      (λ e. refuse-Replies temp_id relay request_id [] request_id (inl refl))
      λ (device, known).
        Sends-if [] known _ _
          (search_ids-Replies temp_id relay request_id (dict fs) device request_id [] (inl refl))
          (check-Replies temp_id relay request_id (dict fs) device request_id [] (inl refl))
