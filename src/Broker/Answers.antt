-- ===== src/Broker/Answers.antt =====
-- What the handlers publish to the clients, on the paths through them.
use versatile.Base.{ℕ, String, ◌≡◌, refl, false, some}
use versatile.Base.Chars.{has_char}
use versatile.Py.Value.{Value, dict, Fields, field_of, get}
use versatile.Py.Text.Split.{split_topic}
use versatile.Manager.Dispatch.Routes.{
  Request, joining, leaving, registering, updating, querying, request_topic, reply_topic,
}
use versatile.Broker.Proc.{Proc, ◌>>=◌}
use versatile.Broker.Paths.{Quiet, Answers, answer_publish, Answers-attempt}
use versatile.Broker.Device.{answer}
use versatile.Broker.Sends.{Sends-Answers}
use versatile.Broker.Query.Replies.{query_replies}
use versatile.Broker.Join.{join}
use versatile.Broker.Leave.{leave}
use versatile.Broker.Register.{register}
use versatile.Broker.Update.{update}
use versatile.Broker.Quiet.{
  join_work-Quiet, leave_work-Quiet, register_work-Quiet, update_work-Quiet,
}
use versatile.Broker.Dispatch.{on_message}

-- Quiet work under a `try` is answered on the topic.
answer-Answers :
    (topic : String) (work : Proc Value) (error_reply : Value)
    → Quiet work
    → Answers (λ t m. t ≡ topic) (answer topic work error_reply)
unfolding answer
answer-Answers topic work error_reply quiet =
    Answers-attempt work _ _ quiet (λ e. answer_publish topic error_reply refl)
      (λ reply. answer_publish topic reply refl)

-- Every path through the callback for a request of a device publishes one message, on the reply topic
-- of that request and device, and then returns.
pub on_message-Answers :
    (call_depth : ℕ) (request : Request) (id : String) (fs : Fields)
    → has_char b'/' id ≡ false
    → Answers
        (λ t m. t ≡ reply_topic request id)
        (on_message call_depth (request_topic request id) (some (dict fs)))
unfolding on_message join leave register update get ◌>>=◌ has_char
on_message-Answers call_depth joining id fs h =
    rw (split_topic "configuration" "join" id refl refl h)
      (answer-Answers _ _ _ (join_work-Quiet call_depth id (dict fs) (field_of "relay" fs)))
on_message-Answers call_depth leaving id fs h =
    rw (split_topic "configuration" "leave" id refl refl h)
      (answer-Answers _ _ _ (leave_work-Quiet id (field_of "relay" fs)))
on_message-Answers call_depth registering id fs h =
    rw (split_topic "configuration" "register" id refl refl h) (
      answer-Answers _ _ _ (
        register_work-Quiet call_depth id (dict fs) (field_of "relay" fs)
          (field_of "registerID" fs)))
on_message-Answers call_depth updating id fs h =
    rw (split_topic "configuration" "update" id refl refl h) (
      answer-Answers _ _ _
        (update_work-Quiet id (dict fs) (field_of "relay" fs) (field_of "updateID" fs)))
on_message-Answers call_depth querying id fs h =
    rw (split_topic "utilization" "query" id refl refl h)
      (Sends-Answers _ (λ sent t m reply. reply.0) (query_replies id fs))
