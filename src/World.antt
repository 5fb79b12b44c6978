-- ===== src/World.antt =====
-- What flexIDMnger_db.py uses and does not implement: the MySQL connection with its one cursor,
-- Python's limit on the depth of calls, and the table of printable characters.
use versatile.Base.{ℕ, String, Bool, Option, List}
use versatile.Py.Value.{Value}

pub record World : Type 1 where
  -- the server, the connection and the cursor
  pub State : Type 0
  -- `cursor.execute(query)`: `none` if it raises, and else the rows that `cursor.fetchall()` gives
  pub execute : String → State → Option (List Value) × State
  -- `db.commit()`: `false` if it raises
  pub commit : State → Bool × State
  -- how many calls of one function may be open
  pub call_depth : ℕ
  -- `str.isprintable` of a character past ASCII
  pub printable : ℕ → Bool
