-- ===== src/Manager/Database/Statements.antt =====
-- The SQL statements that `db_proc` builds, against a description of their text.
use text.Mathlib.TextLemmas.{append-nil, append_assoc}
use mathlib.Core.Path.{fun_ext}
use versatile.Base.{
  ℕ, suc, String, ◌<>◌, ◌≡◌, refl, ap, ◌∙◌, false, List, [], ◌∷◌, arith, inl, inr, nat_eq,
}
use versatile.Py.Value.{
  to_list-of_list, attribute_error, Result, Result-cases, ok, err, Value, dict, str, list_of,
  Fields, end, field, get, find, field_of, subscript, first, sequence, items, number, is_text,
}
use versatile.Py.Text.{to_str}
use versatile.Py.Exec.{pure, traverse, ◌>>=◌, ◌>>◌}
use versatile.World.{World}
use versatile.Manager.{Manager, dict_of, execute, commit}
use versatile.Manager.Database.{
  assign, insert_text, insert_columns, insert_row, insert_rows, select_columns, select_rows,
  db_proc, db_insert, db_select,
}
use versatile.Manager.Database.Lookup.{rows_reply}

-- The texts with a separator between them.
after : String → List String → String
after sep [] = ""
after sep (text ∷ texts) = sep <> text <> after sep texts

unfoldable pub intercalate : String → List String → String
unfolding after
intercalate sep [] = ""
intercalate sep (text ∷ texts) = text <> after sep texts

not_zero : (n : ℕ) → nat_eq (suc n) 0 ≡ false
not_zero n = ground arith

module _ (W : World) where
  -- The assignments `col = 'value'` of a row, with the exception of the first value that has no text.
  unfoldable pub insert_assignments : Fields → Result (List String)
  insert_assignments end = ok []
  insert_assignments (field col value fs) = elim (insert_text W value) [
    | err e ↦ err e
    | ok text ↦ elim (insert_assignments fs) [
      | err e ↦ err e
      | ok rest ↦ ok (assign col text ∷ rest)
    ]
  ]

  unfoldable pub select_assignments : Fields → List String
  select_assignments end = []
  select_assignments (field col value fs) =
      assign col (to_str W.printable value) ∷ select_assignments fs

  abbrev joined : (List String → String) → Result (List String) → Result String
  joined f (ok texts) = ok (f texts)
  joined f (err e) = err e

  insert_columns-suc :
      (index : ℕ) (fs : Fields) (query : String)
      → insert_columns W (suc index) fs query
        ≡ joined (λ texts. query <> after ", " texts) (insert_assignments fs)
  unfolding insert_columns insert_assignments after
  insert_columns-suc index end query = rw append-nil refl
  insert_columns-suc index (field col value fs) query = elim (Result-cases (insert_text W value)) [
    | inl (e, failed) ↦ rw (failed, insert_columns, insert_assignments) refl
    | inr (text, h) ↦
        rw
          (
            h,
            insert_columns,
            insert_assignments,
            not_zero index,
            insert_columns-suc (suc index) fs _,
          )
          (elim (Result-cases (insert_assignments fs)) [
            | inl (e, failed) ↦ rw failed refl
            | inr (rest, g) ↦ rw g (ap ok (simp append_assoc))
          ])
  ]

  -- The loop of an INSERT appends the assignments, separated by commas.
  pub insert_columns-eq :
      (fs : Fields) (query : String)
      → insert_columns W 0 fs query
        ≡ joined (λ texts. query <> intercalate ", " texts) (insert_assignments fs)
  unfolding insert_columns insert_assignments intercalate
  insert_columns-eq end query = rw append-nil refl
  insert_columns-eq (field col value fs) query = elim (Result-cases (insert_text W value)) [
    | inl (e, failed) ↦ rw (failed, insert_columns, insert_assignments) refl
    | inr (text, h) ↦
        rw (h, insert_columns, insert_assignments, insert_columns-suc 0 fs _)
          (elim (Result-cases (insert_assignments fs)) [
            | inl (e, failed) ↦ rw failed refl
            | inr (rest, g) ↦ rw g (ap ok (simp append_assoc))
          ])
  ]

  select_columns-suc :
      (index : ℕ) (fs : Fields) (query : String)
      → select_columns W (suc index) fs query ≡ query <> after " and " (select_assignments fs)
  unfolding select_columns select_assignments after
  select_columns-suc index end query = rw append-nil refl
  select_columns-suc index (field col value fs) query =
      select_columns-suc (suc index) fs _ ∙ rw (not_zero index) (simp append_assoc)

  -- The loop of a SELECT appends the assignments, joined by "and".
  pub select_columns-eq :
      (fs : Fields) (query : String)
      → select_columns W 0 fs query ≡ query <> intercalate " and " (select_assignments fs)
  unfolding select_columns select_assignments intercalate
  select_columns-eq end query = rw append-nil refl
  select_columns-eq (field col value fs) query = select_columns-suc 0 fs _ ∙ simp append_assoc

  -- The statement of one row.
  unfoldable pub insert_statement : String → Value → Result String
  insert_statement table (dict fs) =
      joined (λ texts. ("INSERT INTO " <> table <> " SET ") <> intercalate ", " texts)
        (insert_assignments fs)
  insert_statement table row = err attribute_error

  unfoldable pub insert_statements : String → List Value → Result (List String)
  insert_statements table [] = ok []
  insert_statements table (row ∷ rows) = elim (insert_statement table row) [
    | err e ↦ err e
    | ok query ↦ elim (insert_statements table rows) [ err e ↦ err e | ok rest ↦ ok (query ∷ rest) ]
  ]

  insert_row-eq :
      (table query : String) (row : Value)
      → insert_statement table row ≡ ok query
      → insert_row W table row ≡ execute W query
  unfolding insert_row insert_statement items ◌>>=◌
  insert_row-eq table query (dict fs) h = fun_ext λ s. rw (insert_columns-eq fs _, h) refl
  insert_row-eq table query _ h = cc

  insert_statements-cons :
      (table : String) (row : Value) (rows : List Value) (queries : List String)
      → insert_statements table (row ∷ rows) ≡ ok queries
      → (query : String) × (rest : List String) × (insert_statement table row ≡ ok query)
        × (insert_statements table rows ≡ ok rest)
        × (query ∷ rest ≡ queries)
  unfolding insert_statements
  insert_statements-cons table row rows queries h =
      elim (Result-cases (insert_statement table row)) [
        | inl (e, failed) ↦ absurd (ground arith)
        | inr (query, one) ↦ elim (Result-cases (insert_statements table rows)) [
          | inl (e, failed) ↦ absurd (ground arith)
          | inr (rest, more) ↦ (query, rest, one, more, ground arith)
        ]
      ]

  traverse-insert_row :
      (table : String) (rows : List Value) (queries : List String)
      → insert_statements table rows ≡ ok queries
      → traverse (insert_row W table) rows ≡ traverse (execute W) queries
  unfolding insert_statements traverse
  traverse-insert_row table [] queries h = let e : [] ≡ queries = cc in rw (← e) refl
  traverse-insert_row table (row ∷ rows) queries h =
      let (query, rest, one, more, e) = insert_statements-cons table row rows queries h in
      rw (← e, insert_row-eq table query row one, traverse-insert_row table rows rest more) refl

  -- If every row has a statement, an insert request runs exactly those statements, in the order of
  -- the rows and up to the first that raises, and then commits once.
  pub db_proc-insert :
      (table : String) (rows : List Value) (queries : List String) (s : Manager W.State)
      → insert_statements table rows ≡ ok queries
      → db_proc W db_insert (dict_of (("table", str table) ∷ ("data", list_of rows) ∷ [])) s
        ≡ (traverse (execute W) queries >> (commit W >> pure (dict_of (("error", number 0) ∷ []))))
            s
  unfolding db_proc insert_rows subscript find sequence to_str ◌>>=◌
  db_proc-insert table rows queries s h =
      rw (to_list-of_list rows, traverse-insert_row table rows queries h) refl

  -- A select request of any category but "Sensor" runs one statement, and replies with its rows.
  pub db_proc-select :
      (table : String) (fs : Fields) (s : Manager W.State)
      → is_text (field_of "category" fs) "Sensor" ≡ false
      → db_proc W db_select
          (dict_of (("table", str table) ∷ ("data", list_of (dict fs ∷ [])) ∷ []))
          s
        ≡ (execute W (
                ("SELECT * FROM " <> table <> " WHERE ")
                <> intercalate " and " (select_assignments fs))
              >>= λ rows. pure (rows_reply rows))
            s
  unfolding db_proc select_rows subscript find first get items to_str ◌>>=◌
  db_proc-select table fs s h = rw (h, select_columns-eq fs _) refl
