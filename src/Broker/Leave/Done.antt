-- ===== src/Broker/Leave/Done.antt =====
-- The handler of `leave` with an answer of the database, in a run of the two threads.
use versatile.Base.{
  ℕ, String, ◌<>◌, ◌≡◌, refl, ap, ◌∙◌, Bool, true, false, some, List, [], ◌∷◌, if◌then◌else◌,
}
use versatile.Base.Dict.{contains, erase, lookup}
use versatile.Py.Value.{
  key_error, ok, Value, str, dict, Fields, field_of, number, is_zero, get, as_text,
}
use versatile.Manager.{dict_of}
use versatile.Manager.Database.{id_query}
use versatile.Manager.Device.{device_of}
use versatile.Broker.Proc.{Proc, Globals, ret, fail, write, publish, attempt, lift, ◌>>=◌, ◌>>◌}
use versatile.Broker.Database.{db_delete, change_rows, entry, forget_query, require_zero}
use versatile.Broker.Device.{sender, answer}
use versatile.Broker.Leave.{forget_device, leave_work, leave}
use versatile.Broker.System.{System, Event, turn, advance, step, run}
use versatile.Broker.System.Finish.{at}
use versatile.Broker.System.Exchange.{asking}

abbrev pub ack_topic : String → String
ack_topic temp_id = "/configuration/leave_ack/" <> temp_id

abbrev pub leave_ack : ℕ → Value → Value
leave_ack error relay = dict_of (("error:", number error) ∷ ("relay", relay) ∷ [])

-- What follows the query.
abbrev pub after_query : String → String → Value → String → Bool → Proc Unit
after_query temp_id device relay id present =
    attempt
      (((if present then ret id else fail key_error) >>= λ id. do
        payload ← entry id
        db_error ← lift (get payload "error")
        require_zero db_error "Leave DB error"
        ret id)
        >>= λ id. do forget_query id; forget_device device; ret (leave_ack 0 relay))
      (λ e. publish (ack_topic temp_id) (leave_ack 1 relay) (ret tt))
      (λ reply. publish (ack_topic temp_id) reply (ret tt))

pub leave-asks :
    (temp_id device : String) (fs : Fields)
    → device_of temp_id (field_of "relay" fs) ≡ ok (str device)
    → leave temp_id (dict fs)
      ≡ asking 0 "" fs db_delete
          (id_query "Device" "deviceId" device)
          (after_query temp_id device (field_of "relay" fs))
unfolding leave leave_work sender answer attempt change_rows get as_text ◌>>=◌
leave-asks temp_id device fs from = rw from refl

abbrev pub erased_query : String → Globals → Globals
erased_query id s = record s { query_cache = erase id s.query_cache }

abbrev erased_device : String → Globals → Globals
erased_device device s = record s { device_cache = erase device s.device_cache }

module _ (call_depth : ℕ) (temp_id device : String) (relay : Value) where
  -- The `try` around what is left of the work.
  abbrev tried : Proc Value → Proc Unit
  tried work =
      attempt work (λ e. publish (ack_topic temp_id) (leave_ack 1 relay) (ret tt))
        (λ reply. publish (ack_topic temp_id) reply (ret tt))

  abbrev pub device_left : Proc Unit
  device_left = tried (forget_device device >> ret (leave_ack 0 relay))

  reply_read :
      (id : String) (payload : Fields) (t : System)
      → lookup id t.globals.query_cache ≡ some (dict payload)
      → is_zero (field_of "error" payload) ≡ true
      → step call_depth (turn 0) (at (after_query temp_id device relay id true) t)
        ≡ at (tried (forget_query id >> (forget_device device >> ret (leave_ack 0 relay)))) t
  unfolding step advance attempt entry get require_zero ◌>>=◌
  reply_read id payload t found done = rw (found, done) refl

  pub deletion_failed :
      (id : String) (payload : Fields) (t : System)
      → lookup id t.globals.query_cache ≡ some (dict payload)
      → is_zero (field_of "error" payload) ≡ false
      → step call_depth (turn 0) (at (after_query temp_id device relay id true) t)
        ≡ at (publish (ack_topic temp_id) (leave_ack 1 relay) (ret tt)) t
  unfolding step advance attempt entry get require_zero ◌>>=◌
  deletion_failed id payload t found failed = rw (found, failed) refl

  query_forgotten :
      (id : String) (t : System)
      → contains id t.globals.query_cache ≡ true
      → step call_depth
          (turn 0)
          (at (tried (forget_query id >> (forget_device device >> ret (leave_ack 0 relay)))) t)
        ≡ at (write (erased_query id) device_left) t
  unfolding step advance attempt forget_query ◌>>=◌
  query_forgotten id t present = rw present refl

  pub device_forgotten :
      (t : System)
      → contains device t.globals.device_cache ≡ true
      → step call_depth (turn 0) (at device_left t)
        ≡ at
            (write
              (erased_device device)
              (publish (ack_topic temp_id) (leave_ack 0 relay) (ret tt)))
            t
  unfolding step advance attempt forget_device ◌>>=◌
  device_forgotten t known = rw known refl

  pub device_missed :
      (t : System)
      → contains device t.globals.device_cache ≡ false
      → step call_depth (turn 0) (at device_left t)
        ≡ at (publish (ack_topic temp_id) (leave_ack 1 relay) (ret tt)) t
  unfolding step advance attempt forget_device ◌>>=◌
  device_missed t unknown = rw unknown refl

  -- Behind the answer, up to the cache of devices.
  pub before_device :
      (id : String) (payload : Fields) (es : List Event) (t : System)
      → lookup id t.globals.query_cache ≡ some (dict payload)
      → contains id t.globals.query_cache ≡ true
      → is_zero (field_of "error" payload) ≡ true
      → run call_depth
          (turn 0 ∷ turn 0 ∷ turn 0 ∷ es)
          (at (after_query temp_id device relay id true) t)
        ≡ run call_depth es (at device_left (record t { globals = erased_query id t.globals }))
  unfolding run
  before_device id payload es t found present done =
      ap (run call_depth (turn 0 ∷ turn 0 ∷ es)) (reply_read id payload t found done)
      ∙ ap (run call_depth (turn 0 ∷ es)) (query_forgotten id t present)
