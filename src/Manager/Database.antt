-- ===== src/Manager/Database.antt =====
-- `db_proc` and `send_DBquery`: the text of the SQL statements, and their execution.
pub mod Lookup
pub mod Statements
pub mod Injection
use versatile.Base.{
  Bool, ℕ, zero, suc, String, ◌<>◌, Option, none, some, List, [], ◌∷◌, nat_eq, ◌==◌, if◌then◌else◌,
}
use versatile.Py.Value.{
  Error, Result, ok, err, Value, null, str, list, list_of, Items, Fields, end, field, number, get,
  subscript, first, sequence, items, is_text,
}
use versatile.Py.Text.{to_str, encode_all, str_bytes, replace_quote}
use versatile.Py.Exec.{Exec, pure, lift, traverse, ◌>>=◌, ◌>>◌}
use versatile.World.{World}
use versatile.Manager.{Act, dict_of, execute, commit}

-- the constants `db_insert`, `db_select`, `db_delete` and `db_update`
abbrev pub db_insert : String
db_insert = "insert"

abbrev pub db_select : String
db_select = "select"

abbrev pub db_delete : String
db_delete = "delete"

abbrev pub db_update : String
db_update = "update"

abbrev pub sensor_ids : Value
sensor_ids = list_of (
    str "8040f067c1cd83962abf3599de79c1abb77b2f026d"
    ∷ str "80ce209e43e85f0089649a0be19d16ea2da0c84e82"
    ∷ [])

-- "{0} = '{1}'".format(col, value)
abbrev pub assign : String → String → String
assign col value = col <> " = '" <> value <> "'"

-- {'table': table, 'data': [{column: id}]}
abbrev pub id_query : String → String → String → Value
id_query table column id =
    dict_of (("table", str table) ∷ ("data", list_of (dict_of ((column, str id) ∷ []) ∷ [])) ∷ [])

module _ (W : World) where
  -- A list goes in as the text of its escaped bytes, anything else by its `str`.
  unfoldable pub insert_text : Value → Result String
  insert_text (list vs) = elim (encode_all vs) [
    | ok texts ↦ ok (replace_quote (str_bytes texts))
    | err e ↦ err e
  ]
  insert_text v = ok (to_str W.printable v)

  -- The loop over `enumerate(data['data'][i].items())` of an INSERT.
  unfoldable pub insert_columns : ℕ → Fields → String → Result String
  unfolding insert_text
  insert_columns index end query = ok query
  insert_columns index (field col value fs) query = elim (insert_text value) [
    | ok text ↦
        insert_columns (suc index) fs
          (if nat_eq index 0 then query <> assign col text else (query <> ", ") <> assign col text)
    | err e ↦ err e
  ]

  -- One round of the loop over the rows of an INSERT.
  unfoldable pub insert_row : String → Value → Act W (List Value)
  unfolding insert_columns ◌>>=◌
  insert_row table row = do
    columns ← lift (items row)
    query ← lift (insert_columns 0 columns ("INSERT INTO " <> table <> " SET "))
    execute W query

  -- The loop over `enumerate(data['data'][0].items())` of a SELECT.
  unfoldable pub select_columns : ℕ → Fields → String → String
  select_columns index end query = query
  select_columns index (field col value fs) query = select_columns (suc index) fs (
      if nat_eq index 0
      then query <> assign col (to_str W.printable value)
      else (query <> " and ") <> assign col (to_str W.printable value))

  unfoldable pub insert_rows : Value → Act W Value
  unfolding insert_row
  insert_rows request = do
    table ← lift (subscript request "table")
    rows ← lift (subscript request "data")
    rows ← lift (sequence rows)
    traverse (insert_row (to_str W.printable table)) rows
    commit W
    pure (dict_of (("error", number 0) ∷ []))

  unfoldable pub select_rows : Value → Act W Value
  unfolding select_columns
  select_rows request = do
    rows ← lift (subscript request "data")
    row ← lift (first rows)
    category ← lift (get row "category")
    if is_text category "Sensor"
        then pure (dict_of (("error", number 0) ∷ ("data", sensor_ids) ∷ []))
        else do
          table ← lift (subscript request "table")
          columns ← lift (items row)
          found ←
              execute W (
                select_columns 0 columns
                  ("SELECT * FROM " <> to_str W.printable table <> " WHERE "))
          pure (dict_of (("error", number 0) ∷ ("data", list_of found) ∷ []))

  -- Any other topic falls through, and the function returns `None`.
  unfoldable pub db_proc : String → Value → Act W Value
  unfolding insert_rows select_rows
  db_proc topic request =
      if topic == db_insert
      then insert_rows request
      else if topic == db_select
      then select_rows request
      else pure null

  -- `wait` is not read any more.
  unfoldable pub send_db_query : Value → String → Bool → Act W Value
  unfolding db_proc
  send_db_query query topic wait = db_proc topic query
