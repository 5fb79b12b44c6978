-- ===== src/Manager/Query/Replies.antt =====
-- `query` of the manager from the message to the reply.
use versatile.Base.{
  String, ◌<>◌, ◌≡◌, refl, ◌∙◌, Bool, true, inl, inr, Bool-cases, List, [], ◌∷◌, ◌++◌, map,
  if◌then◌else◌,
}
use versatile.Py.Value.{
  ok, Value, str, dict, list_of, Fields, number, field_of, find, first, subscript, Result-cases,
  get, iterate, as_text, is_text, to_list-of_list,
}
use versatile.Py.Exec.{pure, lift, traverse, ◌>>=◌, ◌>>◌}
use versatile.World.{World}
use versatile.Manager.{Manager, Act, dict_of, fields, execute}
use versatile.Manager.Database.{db_select, db_proc, select_rows, sensor_ids}
use versatile.Manager.Database.Lookup.{IsLookup, IsPlain}
use versatile.Manager.Database.Statements.{intercalate, select_assignments, db_proc-select}
use versatile.Manager.Device.{device_of}
use versatile.Manager.Device.Known.{known_device, same_after, require_device_lem}
use versatile.Manager.Answers.{outcome, answer_lem}
use versatile.Manager.Join.Stored.{dicts}
use versatile.Manager.Query.{read_requirement, query_work, query}

abbrev pub reply : Fields → Value → Value
reply fs ids = dict_of (
    ("error:", number 0)
    ∷ ("queryID", field_of "queryID" fs)
    ∷ ("desc", field_of "desc" fs)
    ∷ ("ids", ids)
    ∷ ("relay", field_of "relay" fs)
    ∷ [])

abbrev pub refusal : Fields → Value
refusal fs =
    dict_of (
      ("error", number 1)
      ∷ ("queryID", field_of "queryID" fs)
      ∷ ("relay", field_of "relay" fs)
      ∷ [])

module _ (W : World) where
  requirements_read :
      (requirements : List Fields) (s : Manager W.State)
      → traverse (read_requirement W) (dicts requirements) s ≡ (ok (map (λ r. tt) requirements), s)
  unfolding traverse read_requirement get ◌>>=◌
  requirements_read [] s = refl
  requirements_read (r ∷ requirements) s = rw (requirements_read requirements s) refl

  -- The columns that the statement compares.
  abbrev columns_of : Value → Value → Value → Fields
  columns_of kind category requirements =
      fields (("queryType", kind) ∷ ("category", category) ∷ ("requirements", requirements) ∷ [])

  abbrev pub wanted : Fields → Fields
  wanted fs =
      columns_of (field_of "queryType" fs) (field_of "category" fs) (field_of "requirements" fs)

  -- A query to the table, and a reply from what it finds.
  abbrev found : Value → Fields → (Value → Value) → Act W Value
  found category columns make =
      if is_text category "Sensor"
      then pure (make sensor_ids)
      else (execute W (
            "SELECT * FROM RegisterList WHERE "
            <> intercalate " and " (select_assignments W columns))
          >>= λ rows. pure (make (list_of rows)))

  db_proc-sensor :
      (kind category requirements : Value) (s : Manager W.State)
      → is_text category "Sensor" ≡ true
      → db_proc W db_select
          (dict_of (
            ("table", str "RegisterList")
            ∷ ("data", list_of (dict (columns_of kind category requirements) ∷ []))
            ∷ []))
          s
        ≡ (ok (dict_of (("error", number 0) ∷ ("data", sensor_ids) ∷ [])), s)
  unfolding db_proc select_rows subscript find first get field_of ◌>>=◌
  db_proc-sensor kind category requirements s h = rw h refl

  db_proc-found :
      (kind category requirements : Value) (make : Value → Value) (s : Manager W.State)
      → let columns = columns_of kind category requirements in
        (do
          db_payload ←
              db_proc W db_select (
                dict_of
                  (("table", str "RegisterList") ∷ ("data", list_of (dict columns ∷ [])) ∷ []))
          ids ← lift (get db_payload "data")
          pure (make ids))
          s
        ≡ found category columns make s
  unfolding get field_of find ◌>>=◌
  db_proc-found kind category requirements make s = elim (Bool-cases (is_text category "Sensor")) [
    | inl sensor ↦ rw (db_proc-sensor kind category requirements s sensor, sensor) refl
    | inr other ↦
        let columns = columns_of kind category requirements in
        let query =
          "SELECT * FROM RegisterList WHERE "
          <> intercalate " and " (select_assignments W columns) in
        rw (db_proc-select W "RegisterList" columns s other, other)
          (elim (Result-cases (execute W query s).0) [
            | inl (e, failed) ↦ rw failed refl
            | inr (rows, ran) ↦ rw ran refl
          ])
  ]

  -- What a query answers, once its device is known.
  abbrev pub answers_to : Fields → Act W Value
  answers_to fs = found (field_of "category" fs) (wanted fs) (reply fs)

  module _ {stored : W.State → String → Bool} (look : IsLookup W "Device" "deviceId" stored) where
    works :
        (temp_id device kind : String) (fs : Fields) (requirements : List Fields)
        (s : Manager W.State)
        → device_of temp_id (field_of "relay" fs) ≡ ok (str device)
        → IsPlain device
        → field_of "queryType" fs ≡ str kind
        → field_of "requirements" fs ≡ list_of (dicts requirements)
        → query_work W temp_id (dict fs) (field_of "relay" fs) (field_of "queryID" fs) s
          ≡ (known_device W look device >> answers_to fs) s
    unfolding query_work get as_text iterate ◌>>=◌
    works temp_id device kind fs requirements s from plain typed listed =
        rw (from, require_device_lem W look device s plain)
          (same_after W look
            (λ u s1.
              rw
                (
                  listed,
                  typed,
                  to_list-of_list (dicts requirements),
                  requirements_read requirements s1,
                )
                (db_proc-found (str kind) (field_of "category" fs) (list_of (dicts requirements))
                  (reply fs) s1))
            (known_device W look device s))

    -- A query from a device with a plain ID, whose type is a text and whose requirements are a list of
    -- dicts, makes the check of the device; if it passes, it answers a fixed list of IDs for the
    -- category Sensor, and for any other the rows of one statement, which compares the type, the
    -- category and the requirements; and it publishes one reply: that answer, or error 1 if the check
    -- fails or the statement raises.
    pub query_lem :
        (temp_id device kind : String) (fs : Fields) (requirements : List Fields)
        (s : Manager W.State)
        → device_of temp_id (field_of "relay" fs) ≡ ok (str device)
        → IsPlain device
        → field_of "queryType" fs ≡ str kind
        → field_of "requirements" fs ≡ list_of (dicts requirements)
        → let (r, s') = (known_device W look device >> answers_to fs) s in
          query W temp_id (dict fs) s ≡ (
            ok tt,
            record s' {
              published =
                  s'.published ++ ("/utilization/reply/" <> temp_id, outcome r (refusal fs)) ∷ [];
            },
          )
    unfolding query get ◌>>=◌
    query_lem temp_id device kind fs requirements s from plain typed listed =
        answer_lem W _ _ _ s
        ∙ rw (works temp_id device kind fs requirements s from plain typed listed) refl
