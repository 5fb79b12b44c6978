-- ===== src/Socket.antt =====
-- resolver/2016/resolver_per.py: the resolver over socketIO. This module has what its handlers share;
-- the handlers are in the modules below.
pub mod ServiceId
pub mod Join
pub mod Update
pub mod Leave
pub mod Request
pub mod Answers
pub mod Mirror
use versatile.Base.{ℕ, String, Bool, true, false, List, [], ◌∷◌, ◌++◌}
use versatile.Base.Dict.{Dict}
use versatile.Py.Value.{ok, Value, list_of, number, first}
use versatile.Py.Exec.{Exec, lift, ◌>>=◌}
use versatile.Manager.{dict_of}
use versatile.Resolver.{Server, done, rows_or_error}

-- `emit(event, message)`, to the client or, with `broadcast=True`, to all
pub record Emission : Type 0 where
  pub event : String
  pub message : Value
  pub broadcast : Bool

-- The global `manageNum`, the database, the `session` of the client and what was emitted, in order.
pub record SocketResolver (S : Type 0) : Type 0 where
  pub manage_num : ℕ
  pub db : S
  pub session : Dict String
  pub emitted : List Emission

module _ (V : Server) where
  abbrev pub Act : Type 0 → Type 0
  Act A = Exec (SocketResolver V.State) A

  unfoldable pub connect : Act Unit
  connect s = let (b, db) = V.connect s.db in (done V b, record s { db = db })

  unfoldable pub execute : String → Act (List Value)
  execute query s =
      let (rows, db) = V.execute query s.db in (rows_or_error V rows, record s { db = db })

  unfoldable pub commit : Act Unit
  commit s = let (b, db) = V.commit s.db in (done V b, record s { db = db })

  -- `cursor.fetchall()[0][0]`
  unfoldable pub only_cell : List Value → Act Value
  only_cell rows = do row ← lift (first (list_of rows)); lift (first row)

  abbrev put_out : Bool → String → Value → Act Unit
  put_out broadcast event message s = (
    ok tt,
    record s {
      emitted =
          s.emitted ++ record { event = event; message = message; broadcast = broadcast } ∷ [];
    },
  )

  unfoldable pub emit : String → Value → Act Unit
  emit event message = put_out false event message

  unfoldable pub emit_all : String → Value → Act Unit
  emit_all event message = put_out true event message

-- {"error": error}
abbrev pub error_message : ℕ → Value
error_message error = dict_of (("error", number error) ∷ [])
