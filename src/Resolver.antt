-- ===== src/Resolver.antt =====
-- resolver/2016/resolver.py: the resolver as a Flask service over a MySQL database. This module has
-- what its handlers share; the handlers are in the modules below.
pub mod ServiceId
pub mod Join
pub mod Update
pub mod Leave
pub mod Request
pub mod Counter
pub mod Steps
use versatile.Base.{ℕ, String, Bool, true, false, Option, none, some, List}
use versatile.Py.Value.{Error, database_error, Result, ok, err, Value, list_of, number, str, first}
use versatile.Py.Exec.{Exec, lift, ◌>>=◌}
use versatile.Manager.{dict_of}

-- MySQL behind `mysql.connect()`. A connection that is closed before its commit leaves nothing:
-- what that means is the server's business, so `State` is abstract.
pub record Server : Type 1 where
  pub State : Type 0
  -- `mysql.connect()`: `false` if it raises
  pub connect : State → Bool × State
  -- `cursor.execute(query)`: `none` if it raises, and else the rows that `cursor.fetchall()` gives
  pub execute : String → State → Option (List Value) × State
  -- `conn.commit()`: `false` if it raises
  pub commit : State → Bool × State

-- The global `manageNum`, and the database.
pub record Resolver (S : Type 0) : Type 0 where
  pub manage_num : ℕ
  pub db : S

-- What a handler returns: a JSON text, a plain text, or the text of an exception.
pub data Reply : Type 0 where
  json : Value → Reply
  text : String → Reply
  error_text : Error → Reply

module _ (V : Server) where
  abbrev pub Act : Type 0 → Type 0
  Act A = Exec (Resolver V.State) A

  abbrev pub done : Bool → Result Unit
  done true = ok tt
  done false = err database_error

  abbrev pub rows_or_error : Option (List Value) → Result (List Value)
  rows_or_error none = err database_error
  rows_or_error (some rows) = ok rows

  unfoldable pub connect : Act Unit
  connect s = let (b, db) = V.connect s.db in (done b, record s { db = db })

  unfoldable pub execute : String → Act (List Value)
  execute query s =
      let (rows, db) = V.execute query s.db in (rows_or_error rows, record s { db = db })

  unfoldable pub commit : Act Unit
  commit s = let (b, db) = V.commit s.db in (done b, record s { db = db })

  -- `cursor.fetchall()[0][0]`
  unfoldable pub only_cell : List Value → Act Value
  only_cell rows = do row ← lift (first (list_of rows)); lift (first row)
