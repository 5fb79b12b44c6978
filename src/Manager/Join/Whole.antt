-- ===== src/Manager/Join/Whole.antt =====
-- `join` of the manager from the message to the reply.
use versatile.Base.{String, [], ◌∷◌}
use versatile.Py.Value.{Value, str, number}
use versatile.World.{World}
use versatile.Manager.{Manager, dict_of}

abbrev pub ack : String → Value
ack id = dict_of (("error:", number 0) ∷ ("id", str id) ∷ ("relay", str "none") ∷ [])

abbrev pub refusal : String → Value
refusal temp_id =
    dict_of (("error:", number 1) ∷ ("deviceID", str temp_id) ∷ ("relay", str "none") ∷ [])
