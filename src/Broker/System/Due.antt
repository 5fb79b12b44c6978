-- ===== src/Broker/System/Due.antt =====
-- The replies that are still to come, over every schedule of the two threads.
use mathlib.Core.List.{append_assoc, append-nil}
use versatile.Base.{
  ℕ, String, ◌≡◌, refl, sym, ap, ◌∙◌, Bool, true, false, Option, some, List, [], ◌∷◌, ◌++◌, map,
  Bool-cases, inl, inr, if◌then◌else◌,
}
use versatile.Base.Chars.{has_char}
use versatile.Base.Dict.{contains, lookup}
use versatile.Py.Value.{Result, ok, err, Value, dict, Fields}
use versatile.Manager.Dispatch.Routes.{Request, request_topic, reply_topic}
use versatile.Broker.Proc.{Proc, Globals, ret}
use versatile.Broker.Database.{query_id}
use versatile.Broker.Paths.{
  Answers, answer_read, answer_write, answer_publish, answer_publish_db, answer_draw, answer_wait,
}
use versatile.Broker.Answers.{on_message-Answers}
use versatile.Broker.Dispatch.{on_db_message}
use versatile.Broker.System.{
  Message, System, Event, turn, message, db_message, connected, db_connected, is_pending, is_there,
  start, advance, step, run, initial, store,
}

-- The events whose messages are requests of devices, with the topics of their replies, in order.
pub data Requests : List Event → List String → Type 0 where
  nothing : Requests [] []
  ask :
      {es : List Event} {ts : List String} (request : Request) (id : String) (fs : Fields)
      → has_char b'/' id ≡ false
      → Requests es ts
      → Requests
          (message (request_topic request id) (some (dict fs)) ∷ es)
          (reply_topic request id ∷ ts)
  take_turn :
      {es : List Event} {ts : List String} (n : ℕ) → Requests es ts → Requests (turn n ∷ es) ts
  reply :
      {es : List Event} {ts : List String} (topic : String) (payload : Option Value)
      → Requests es ts
      → Requests (db_message topic payload ∷ es) ts
  connect : {es : List Event} {ts : List String} → Requests es ts → Requests (connected ∷ es) ts
  connect_db :
      {es : List Event} {ts : List String} → Requests es ts → Requests (db_connected ∷ es) ts

-- The requests in the inbox.
pub data Pending : List Message → List String → Type 0 where
  no_more : Pending [] []
  another :
      {inbox : List Message} {ts : List String} (request : Request) (id : String) (fs : Fields)
      → has_char b'/' id ≡ false
      → Pending inbox ts
      → Pending ((request_topic request id, some (dict fs)) ∷ inbox) (reply_topic request id ∷ ts)

Pending-append :
    {inbox : List Message} {ts : List String} (request : Request) (id : String) (fs : Fields)
    → has_char b'/' id ≡ false
    → Pending inbox ts
    → Pending
        (inbox ++ (request_topic request id, some (dict fs)) ∷ [])
        (ts ++ reply_topic request id ∷ [])
Pending-append request id fs h no_more = another request id fs h no_more
Pending-append request id fs h (another r i f hi p) =
    another r i f hi (Pending-append request id fs h p)

abbrev pub topics : List (String × Value) → List String
topics ms = map (λ (m : String × Value). m.0) ms

abbrev pub Replies : String → Proc Unit → Type 0
Replies topic = Answers (λ t m. t ≡ topic)

-- The replies so far, that of the handler, if one runs, and those of the inbox are all that is due.
pub data Due (s : System) (due : List String) : Type 0 where
  idle :
      (ts : List String)
      → Pending s.inbox ts
      → s.running ≡ ret tt
      → topics s.published ++ ts ≡ due
      → Due s due
  busy :
      (t : String) (ts : List String)
      → Pending s.inbox ts
      → Replies t s.running
      → topics s.published ++ t ∷ ts ≡ due
      → Due s due

pub map-append :
    (ms : List (String × Value)) (t : String) (m : Value)
    → topics (ms ++ (t, m) ∷ []) ≡ topics ms ++ t ∷ []
map-append [] t m = refl
map-append (x ∷ ms) t m = rw (map-append ms t m) refl

pub initial-Due : Due initial []
initial-Due = idle [] no_more refl refl

module _ (call_depth : ℕ) where
  -- A turn of a handler that is still to answer.
  advance-Due :
      {p : Proc Unit} (n : ℕ) (s : System) (due : List String) (t : String) (ts : List String)
      → Pending s.inbox ts
      → topics s.published ++ t ∷ ts ≡ due
      → s.running ≡ p
      → Replies t p
      → Due (advance call_depth n p s) due
  unfolding advance
  advance-Due n s due t ts pend all here (answer_read f a) = busy t ts pend (a s.globals) all
  advance-Due n s due t ts pend all here (answer_write g p a) = busy t ts pend a all
  advance-Due n s due t ts pend all here (answer_publish topic m same) =
      idle ts pend refl (
        rw (map-append s.published topic m, same, append_assoc (topics s.published) (t ∷ []) ts)
          all)
  advance-Due n s due t ts pend all here (answer_publish_db topic m p a) = busy t ts pend a all
  advance-Due n s due t ts pend all here (answer_draw f a) =
      elim (Bool-cases (contains (query_id n) s.globals.query_cache)) [
        | inl taken ↦ rw taken (busy t ts pend (rw here (answer_draw f a)) all)
        | inr free ↦ rw free (busy t ts pend (a n) all)
      ]
  advance-Due n s due t ts pend all here (answer_wait id f level a) =
      elim (Bool-cases (is_pending (lookup id s.globals.query_cache))) [
        | inl waits ↦ rw waits (busy t ts pend (rw here (answer_wait id f level a)) all)
        | inr arrived ↦
            rw arrived (busy t ts pend (a (is_there (lookup id s.globals.query_cache))) all)
      ]

  -- A turn between two messages.
  start-Due :
      (n : ℕ) (s : System) (due : List String) (inbox : List Message) (ts : List String)
      → s.inbox ≡ inbox
      → Pending inbox ts
      → s.running ≡ ret tt
      → topics s.published ++ ts ≡ due
      → Due (start call_depth inbox s) due
  unfolding start
  start-Due n s due _ _ here no_more rests all = idle [] (rw here no_more) rests all
  start-Due n s due _ _ here (another request id fs h pend) rests all =
      busy _ _ pend (on_message-Answers call_depth request id fs h) all

  at_rest :
      (n : ℕ) (s : System) (due : List String) (p : Proc Unit)
      → p ≡ ret tt
      → Due (start call_depth s.inbox s) due
      → Due (advance call_depth n p s) due
  unfolding advance
  at_rest n s due p rests h = rw rests h

  turn-Due :
      (n : ℕ) (s : System) (due : List String) → Due s due → Due (step call_depth (turn n) s) due
  unfolding step advance
  turn-Due n s due (idle ts pend rests all) =
      at_rest n s due s.running rests (start-Due n s due s.inbox ts refl pend rests all)
  turn-Due n s due (busy t ts pend a all) = advance-Due n s due t ts pend all refl a

  stored-Due :
      (r : Result Globals) (s : System) (due : List String)
      → Due s due
      → Due (store call_depth r s) due
  stored-Due (ok g) s due (idle ts pend rests all) = idle ts pend rests all
  stored-Due (ok g) s due (busy t ts pend a all) = busy t ts pend a all
  stored-Due (err e) s due (idle ts pend rests all) = idle ts pend rests all
  stored-Due (err e) s due (busy t ts pend a all) = busy t ts pend a all

  if-Due :
      (b : Bool) (s t : System) (due : List String)
      → Due s due
      → Due t due
      → Due (if b then s else t) due
  if-Due true s t due hs ht = hs
  if-Due false s t due hs ht = ht

  subscribed-Due :
      (names db_names : List String) (s : System) (due : List String)
      → Due s due
      → Due (record s { subscribed = names; db_subscribed = db_names }) due
  subscribed-Due names db_names s due (idle ts pend rests all) = idle ts pend rests all
  subscribed-Due names db_names s due (busy t ts pend a all) = busy t ts pend a all

  message-Due :
      (request : Request) (id : String) (fs : Fields) (s : System) (due : List String)
      → has_char b'/' id ≡ false
      → Due s due
      → Due
          (step call_depth (message (request_topic request id) (some (dict fs))) s)
          (due ++ reply_topic request id ∷ [])
  unfolding step
  message-Due request id fs s due h (idle ts pend rests all) =
      idle _ (Pending-append request id fs h pend) rests (
        sym (append_assoc (topics s.published) ts _)
        ∙ ap (λ l. l ++ reply_topic request id ∷ []) all)
  message-Due request id fs s due h (busy t ts pend a all) =
      busy t _ (Pending-append request id fs h pend) a (
        sym (append_assoc (topics s.published) (t ∷ ts) _)
        ∙ ap (λ l. l ++ reply_topic request id ∷ []) all)

  pub run-Due :
      {es : List Event} {ts : List String} (s : System) (due : List String)
      → Requests es ts
      → Due s due
      → Due (run call_depth es s) (due ++ ts)
  unfolding run
  run-Due s due nothing h = rw (append-nil due) h
  run-Due s due (ask {ts = ts} request id fs plain rest) h = rw at_end (
      run-Due (step call_depth (message (request_topic request id) (some (dict fs))) s) _ rest
        (message-Due request id fs s due plain h))
    where
      at_end : due ++ reply_topic request id ∷ ts ≡ (due ++ reply_topic request id ∷ []) ++ ts
      at_end = sym (append_assoc due (reply_topic request id ∷ []) ts)
  run-Due s due (take_turn n rest) h =
      run-Due (step call_depth (turn n) s) due rest (turn-Due n s due h)
  run-Due s due (reply topic payload rest) h =
      run-Due (step call_depth (db_message topic payload) s) due rest
        (if-Due s.db_alive _ _ due (stored-Due (on_db_message topic payload s.globals) s due h) h)
  run-Due s due (connect rest) h =
      run-Due (step call_depth connected s) due rest (subscribed-Due _ s.db_subscribed s due h)
  run-Due s due (connect_db rest) h =
      run-Due (step call_depth db_connected s) due rest (subscribed-Due s.subscribed _ s due h)
