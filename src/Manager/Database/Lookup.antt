-- ===== src/Manager/Database/Lookup.antt =====
-- A SELECT by one column: its text, what MySQL promises of it, and what `db_proc` makes of it.
use versatile.Base.{String, ◌<>◌, ◌≡◌, Bool, false, some, List, [], ◌∷◌, ℕ, inl, inr, arith, ◌==◌}
use versatile.Base.Chars.{has_char, has_char-append}
use versatile.Base.Decimal.{decimal, has_char-decimal}
use versatile.Py.Value.{ok, Value, list_of, truthy, number, get, find, subscript, first, items}
use versatile.Py.Text.{to_str}
use versatile.Py.Exec.{◌>>=◌}
use versatile.World.{World}
use versatile.Manager.{Manager, dict_of, execute}
use versatile.Manager.Database.{assign, id_query, db_select, db_proc}

-- The text of the statement.
abbrev pub lookup_statement : String → String → String → String
lookup_statement table column id = ("SELECT * FROM " <> table <> " WHERE ") <> assign column id

-- A text that a quoted SQL string can hold as it is: no quote and no backslash.
pub record IsPlain (id : String) : Type 0 where
  pub no_quote : has_char b'\'' id ≡ false
  pub no_backslash : has_char b'\\' id ≡ false

pub IsPlain-decimal : (n : ℕ) (s : String) → IsPlain s → IsPlain (decimal n <> s)
IsPlain-decimal n s h = record {
  no_quote =
      ground
        (arith, has_char-append b'\'' (decimal n) s, has_char-decimal b'\'' n (inl (omega arith)));
  no_backslash =
      ground
        (arith, has_char-append b'\\' (decimal n) s, has_char-decimal b'\\' n (inr (omega arith)));
}

-- What is assumed of the database: a SELECT of the rows whose column equals a plain text runs,
-- changes nothing, and gives rows exactly if the table holds one (`stored`, by MySQL's own
-- comparison of texts).
pub record IsLookup (W : World) (table column : String) (stored : W.State → String → Bool)
    : Type 0 where
  pub rows : W.State → String → List Value
  pub select :
      (db : W.State) (id : String)
      → IsPlain id
      → W.execute (lookup_statement table column id) db ≡ (some (rows db id), db)
  pub found : (db : W.State) (id : String) → truthy (list_of (rows db id)) ≡ stored db id

-- The reply of `db_proc` to a lookup.
abbrev pub rows_reply : List Value → Value
rows_reply rows = dict_of (("error", number 0) ∷ ("data", list_of rows) ∷ [])

-- A lookup in a column other than `category` returns the rows, and changes nothing.
pub db_proc-id_query :
    (W : World) (table column id : String) {stored : W.State → String → Bool}
    → (look : IsLookup W table column stored) → (s : Manager W.State)
    → (column == "category") ≡ false
    → IsPlain id
    → db_proc W db_select (id_query table column id) s ≡ (ok (rows_reply (look.rows s.db id)), s)
unfolding db_proc get find subscript first items to_str execute ◌>>=◌
db_proc-id_query W table column id look s h plain = ground (arith, look.select s.db id plain, h)
