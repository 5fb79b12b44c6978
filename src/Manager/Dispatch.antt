-- ===== src/Manager/Dispatch.antt =====
-- The callbacks of the MQTT client. A message is its topic and what `json.loads` makes of its
-- payload, `none` where the decoding raises.
pub mod Routes
pub mod Cache
pub mod Ids
use versatile.Base.{String, Option, none, some, List, [], ◌∷◌, ◌==◌, if◌then◌else◌}
use versatile.Base.Dict.{insert}
use versatile.Py.Value.{index_error, value_error, Result, ok, err, Value}
use versatile.Py.Text.{split}
use versatile.Py.Exec.{pure, lift, modify, ◌>>=◌, ◌>>◌}
use versatile.World.{World}
use versatile.Manager.{Manager, Act, subscribe}
use versatile.Manager.Join.{join}
use versatile.Manager.Leave.{leave}
use versatile.Manager.Register.{register}
use versatile.Manager.Update.{update}
use versatile.Manager.Query.{query}

abbrev pub loaded : Option Value → Result Value
loaded none = err value_error
loaded (some payload) = ok payload

-- topic[1], topic[2], topic[3]
abbrev pub second : List String → Result String
second (a ∷ b ∷ rest) = ok b
second _ = err index_error

abbrev pub third : List String → Result String
third (a ∷ b ∷ c ∷ rest) = ok c
third _ = err index_error

abbrev pub fourth : List String → Result String
fourth (a ∷ b ∷ c ∷ d ∷ rest) = ok d
fourth _ = err index_error

-- topic[-1]; a split has a part
abbrev pub last_part : String → List String → String
last_part part [] = part
last_part part (next ∷ rest) = last_part next rest

module _ (W : World) where
  -- The handlers under "configuration".
  unfoldable pub configure : List String → Value → Act W Unit
  configure topic payload = do
    kind ← lift (third topic)
    if kind == "join"
        then (do device_id ← lift (fourth topic); join W device_id payload)
        else if kind == "leave"
        then (do device_id ← lift (fourth topic); leave W device_id payload)
        else if kind == "register"
        then (do device_id ← lift (fourth topic); register W device_id payload)
        else if kind == "update"
        then (do device_id ← lift (fourth topic); update W device_id payload)
        else pure tt

  -- The handler under "utilization".
  unfoldable pub utilize : List String → Value → Act W Unit
  utilize topic payload = do
    kind ← lift (third topic)
    if kind == "query"
        then (do device_id ← lift (fourth topic); query W device_id payload)
        else pure tt

  unfoldable pub on_message : String → Option Value → Act W Unit
  unfolding configure utilize
  on_message msg_topic msg_payload = do
    let topic = split msg_topic
    payload ← lift (loaded msg_payload)
    area ← lift (second topic)
    if area == "configuration"
        then configure topic payload
        else if area == "utilization"
        then utilize topic payload
        else pure tt

  unfoldable pub on_connect : Act W Unit
  on_connect = do
    subscribe W "/configuration/join/#"
    subscribe W "/configuration/leave/#"
    subscribe W "/configuration/register/#"
    subscribe W "/configuration/update/#"
    subscribe W "/utilization/query/#"

  -- Not installed in this version, like the next one.
  unfoldable pub on_db_connect : Act W Unit
  on_db_connect = do
    subscribe W "/dbquery/iack/flexMnger/#"
    subscribe W "/dbquery/sack/flexMnger/#"
    subscribe W "/dbquery/dack/flexMnger/#"
    subscribe W "/dbquery/uack/flexMnger/#"

  unfoldable pub on_db_message : String → Option Value → Act W Unit
  on_db_message msg_topic msg_payload = do
    let topic = split msg_topic
    payload ← lift (loaded msg_payload)
    modify (λ s. record s { query_cache = insert (last_part "" topic) payload s.query_cache })
