-- ===== src/Broker/Dispatch.antt =====
-- The callbacks of the two MQTT clients. A message is its topic and what `json.loads` makes of its
-- payload, `none` where the decoding raises.
pub mod Stored
use versatile.Base.{ℕ, String, Option, List, [], ◌∷◌, ◌==◌, if◌then◌else◌}
use versatile.Base.Dict.{insert}
use versatile.Py.Value.{Result, ok, err, Value}
use versatile.Py.Text.{split}
use versatile.Manager.Dispatch.{loaded, second, third, fourth, last_part}
use versatile.Broker.Proc.{Proc, Globals, ret, lift, ◌>>=◌}
use versatile.Broker.Join.{join}
use versatile.Broker.Leave.{leave}
use versatile.Broker.Register.{register}
use versatile.Broker.Update.{update}
use versatile.Broker.Query.{query}

-- What `on_connect` and `on_db_connect` subscribe to.
abbrev pub client_topics : List String
client_topics =
    "/configuration/join/#" ∷ "/configuration/leave/#" ∷ "/configuration/register/#"
    ∷ "/configuration/update/#" ∷ "/utilization/query/#" ∷ []

abbrev pub db_topics : List String
db_topics =
    "/dbquery/iack/flexMnger/#" ∷ "/dbquery/sack/flexMnger/#" ∷ "/dbquery/dack/flexMnger/#"
    ∷ "/dbquery/uack/flexMnger/#" ∷ []

module _ (call_depth : ℕ) where
  -- The handlers under "configuration".
  unfoldable pub configure : List String → Value → Proc Unit
  configure topic payload = do
    kind ← lift (third topic)
    if kind == "join"
        then (do device_id ← lift (fourth topic); join call_depth device_id payload)
        else if kind == "leave"
        then (do device_id ← lift (fourth topic); leave device_id payload)
        else if kind == "register"
        then (do device_id ← lift (fourth topic); register call_depth device_id payload)
        else if kind == "update"
        then (do device_id ← lift (fourth topic); update device_id payload)
        else ret tt

  -- The handler under "utilization".
  unfoldable pub utilize : List String → Value → Proc Unit
  utilize topic payload = do
    kind ← lift (third topic)
    if kind == "query"
        then (do device_id ← lift (fourth topic); query device_id payload)
        else ret tt

  unfoldable pub on_message : String → Option Value → Proc Unit
  unfolding configure utilize
  on_message msg_topic msg_payload = do
    let topic = split msg_topic
    payload ← lift (loaded msg_payload)
    area ← lift (second topic)
    if area == "configuration"
        then configure topic payload
        else if area == "utilization"
        then utilize topic payload
        else ret tt

abbrev stored : String → Result Value → Globals → Result Globals
stored id (ok payload) s = ok (record s { query_cache = insert id payload s.query_cache })
stored id (err e) s = err e

-- In the thread of the database client.
unfoldable pub on_db_message : String → Option Value → Globals → Result Globals
on_db_message msg_topic msg_payload s =
    stored (last_part "" (split msg_topic)) (loaded msg_payload) s
