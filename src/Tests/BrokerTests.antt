-- ===== src/Tests/BrokerTests.antt =====
-- The broker version of the manager: runs of its two threads, and the theorems at concrete inputs.
use versatile.Base.{◌≡◌, false, refl, Option, none, some, ◌⊎◌, List, [], ◌∷◌, ◌++◌}
use versatile.Base.Chars.{has_char}
use versatile.Py.Value.{Value, null, dict, str, end, field, number, Fields, field_of, get, as_text}
use versatile.Manager.Dispatch.Routes.{leaving, querying, request_topic, reply_topic}
use versatile.Broker.Proc.{attempt, ◌>>=◌}
use versatile.Base.Dict.{contains, lookup, insert, erase}
use versatile.Base.Decimal.{digit}
use versatile.Py.Text.{split}
use versatile.Broker.Dispatch.{on_message, on_db_message}
use versatile.Broker.Leave.{leave, leave_work}
use versatile.Broker.Device.{answer}
use versatile.Broker.Query.{query}
use versatile.Broker.Sends.{Sends}
use versatile.Broker.Query.Replies.{QueryReply, query_replies}
use versatile.Broker.System.{System, Event, turn, message, db_message, connected, run, initial}
use versatile.Broker.System.Finish.{Served, Taken}
use versatile.Broker.System.Progress.{Done, run_can_answer}
use versatile.Broker.System.Stuck.{waits_for_ever}
use versatile.Broker.System.Due.{Requests, nothing, ask, take_turn, reply, connect}
use versatile.Broker.System.Replies.{Answered, run_answers}

abbrev sent : Fields
sent = field "relay" (str "none") end

abbrev deleted : Option Value
deleted = some (dict (field "error" (number 0) end))

-- A device leaves: the query has the ID 7, and its reply comes while the handler waits.
abbrev leave_schedule : List Event
leave_schedule =
    connected
    ∷ message (request_topic leaving "0a3") (some (dict sent))
    ∷ turn 0
    ∷ turn 7
    ∷ turn 0
    ∷ turn 0
    ∷ turn 0
    ∷ db_message "/dbquery/dack/flexMnger/0x00000007" deleted
    ∷ turn 0
    ∷ turn 0
    ∷ turn 0
    ∷ turn 0
    ∷ turn 0
    ∷ turn 0
    ∷ []

plain_0a3 : has_char b'/' "0a3" ≡ false
unfolding has_char
plain_0a3 = refl

leave_requests : Requests leave_schedule (reply_topic leaving "0a3" ∷ [])
leave_requests = connect (
    ask leaving "0a3" sent plain_0a3 (
      take_turn 0 (
        take_turn 7 (
          take_turn 0 (
            take_turn 0 (
              take_turn 0 (
                reply _ deleted (
                  take_turn 0 (
                    take_turn 0
                      (take_turn 0 (take_turn 0 (take_turn 0 (take_turn 0 nothing)))))))))))))

abbrev left : System
left = run 5 leave_schedule initial

-- The device is not in the cache, so the reply is the error reply.
left_test :
    left.published
    ≡ (
      "/configuration/leave_ack/0a3",
      dict (field "error:" (number 1) (field "relay" (str "none") end)),
    )
      ∷ []
unfolding run on_message leave leave_work answer attempt ◌>>=◌ split contains lookup insert erase
    digit get as_text on_db_message
left_test = refl

run_answers_example : Answered (reply_topic leaving "0a3" ∷ []) left
run_answers_example = run_answers 5 leave_requests

query_replies_example : Sends (QueryReply "0a3" (str "none") null) [] (query "0a3" (dict sent))
unfolding field_of
query_replies_example = query_replies "0a3" sent

-- Two requests, of which one turn has started the first.
abbrev two_requests : List Event
two_requests =
    message (request_topic leaving "0a3") (some (dict sent))
    ∷ message (request_topic querying "0a3") (some (dict end))
    ∷ turn 0
    ∷ []

run_can_answer_example :
    (more : List Event) × Served (λ id. "/dbquery/sack/flexMnger") (λ id. end) more
    × (Done
          (reply_topic leaving "0a3" ∷ reply_topic querying "0a3" ∷ [])
          (run 5 (two_requests ++ more) initial)
        ⊎ Taken (run 5 (two_requests ++ more) initial))
unfolding run
run_can_answer_example =
    run_can_answer 5 (λ id. "/dbquery/sack/flexMnger") (λ id. end)
      (ask leaving "0a3" sent plain_0a3 (ask querying "0a3" end plain_0a3 (take_turn 0 nothing)))
      refl

-- The handler of the first request waits, and what comes from the database cannot be decoded.
abbrev stuck : System
stuck =
    run 5
      (message (request_topic leaving "0a3") (some (dict sent))
        ∷ turn 0
        ∷ turn 7
        ∷ turn 0
        ∷ turn 0
        ∷ db_message "/dbquery/dack/flexMnger/0x00000007" none
        ∷ [])
      initial

abbrev later : List Event
later = turn 0 ∷ db_message "/dbquery/dack/flexMnger/0x00000007" deleted ∷ turn 0 ∷ []

waits_for_ever_example :
    ((run 5 later stuck).running ≡ stuck.running) × ((run 5 later stuck).published ≡ [])
unfolding run on_message leave leave_work answer attempt ◌>>=◌ split contains lookup insert digit
    get as_text on_db_message
waits_for_ever_example = waits_for_ever 5 "0x00000007" _ stuck later refl refl refl
