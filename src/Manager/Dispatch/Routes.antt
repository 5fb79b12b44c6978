-- ===== src/Manager/Dispatch/Routes.antt =====
-- Where `on_message` sends a message, and what it answers.
use versatile.Base.{String, ◌<>◌, ◌≡◌, refl, false, some, [], ◌∷◌, ◌++◌}
use versatile.Base.Chars.{has_char}
use versatile.Py.Value.{ok, Value, dict, Fields, field_of, get}
use versatile.Py.Text.Split.{split_topic}
use versatile.Py.Exec.{◌>>=◌}
use versatile.World.{World}
use versatile.Manager.{Manager, Act}
use versatile.Manager.Join.{join}
use versatile.Manager.Leave.{leave}
use versatile.Manager.Leave.Fails.{leave_fails}
use versatile.Manager.Register.{register}
use versatile.Manager.Update.{update}
use versatile.Manager.Query.{query}
use versatile.Manager.Quiet.{
  join_work-Quiet, register_work-Quiet, update_work-Quiet, query_work-Quiet,
}
use versatile.Manager.Answers.{published-answer}
use versatile.Manager.Dispatch.{on_message}

-- The five requests of a device.
pub data Request : Type 0 where
  joining leaving registering updating querying : Request

-- The topic of a request of a device, and that of its reply.
abbrev pub request_topic : Request → String → String
request_topic joining id = "/configuration/join/" <> id
request_topic leaving id = "/configuration/leave/" <> id
request_topic registering id = "/configuration/register/" <> id
request_topic updating id = "/configuration/update/" <> id
request_topic querying id = "/utilization/query/" <> id

abbrev pub reply_topic : Request → String → String
reply_topic joining id = "/configuration/join_ack/" <> id
reply_topic leaving id = "/configuration/leave_ack/" <> id
reply_topic registering id = "/configuration/register_ack/" <> id
reply_topic updating id = "/configuration/update_ack/" <> id
reply_topic querying id = "/utilization/reply/" <> id

module _ (W : World) where
  abbrev pub handler : Request → String → Value → Act W Unit
  handler joining = join W
  handler leaving = leave W
  handler registering = register W
  handler updating = update W
  handler querying = query W

  -- A request goes to its handler, with the device's ID from the topic.
  pub on_message-handler :
      (request : Request) (id : String) (payload : Value) (s : Manager W.State)
      → has_char b'/' id ≡ false
      → on_message W (request_topic request id) (some payload) s ≡ handler request id payload s
  unfolding on_message has_char ◌>>=◌
  on_message-handler joining id payload s h =
      rw (split_topic "configuration" "join" id refl refl h) refl
  on_message-handler leaving id payload s h =
      rw (split_topic "configuration" "leave" id refl refl h) refl
  on_message-handler registering id payload s h =
      rw (split_topic "configuration" "register" id refl refl h) refl
  on_message-handler updating id payload s h =
      rw (split_topic "configuration" "update" id refl refl h) refl
  on_message-handler querying id payload s h =
      rw (split_topic "utilization" "query" id refl refl h) refl

  -- A handler returns, and publishes one message.
  abbrev Answered : Request → String → Manager W.State → Act W Unit → Type 0
  Answered request id s act =
      ((act s).0 ≡ ok tt)
      × ((reply : Value) × ((act s).1.published
            ≡ s.published ++ (reply_topic request id, reply) ∷ []))

  handler_answers :
      (request : Request) (id : String) (fs : Fields) (s : Manager W.State)
      → Answered request id s (handler request id (dict fs))
  unfolding join leave register update query get ◌>>=◌
  handler_answers joining id fs s =
      let (r, one) =
        published-answer W _ _ _ s (join_work-Quiet W id (dict fs) (field_of "relay" fs)) in
      (r, (_, one))
  handler_answers leaving id fs s = rw (leave_fails W id fs s) (refl, (_, refl))
  handler_answers registering id fs s =
      let (r, one) =
        published-answer W _ _ _ s
          (register_work-Quiet W id (dict fs) (field_of "relay" fs) (field_of "registerID" fs)) in
      (r, (_, one))
  handler_answers updating id fs s =
      let (r, one) =
        published-answer W _ _ _ s
          (update_work-Quiet W id (dict fs) (field_of "relay" fs) (field_of "updateID" fs)) in
      (r, (_, one))
  handler_answers querying id fs s =
      let (r, one) =
        published-answer W _ _ _ s
          (query_work-Quiet W id (dict fs) (field_of "relay" fs) (field_of "queryID" fs)) in
      (r, (_, one))

  -- Whatever the database does and whatever the fields hold, a request whose payload is a dict is
  -- handled without an exception, and exactly one message is published: the reply, on the topic of
  -- that request and device.
  pub on_message_answers :
      (request : Request) (id : String) (fs : Fields) (s : Manager W.State)
      → has_char b'/' id ≡ false
      → let (r, s') = on_message W (request_topic request id) (some (dict fs)) s in
        (r ≡ ok tt)
        × ((reply : Value) × (s'.published ≡ s.published ++ (reply_topic request id, reply) ∷ []))
  on_message_answers request id fs s h =
      rw (on_message-handler request id (dict fs) s h) (handler_answers request id fs s)
