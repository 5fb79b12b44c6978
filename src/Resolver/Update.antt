-- ===== src/Resolver/Update.antt =====
-- `Update` of the Flask service: the services of a device are stored, and the table gets the
-- attribute columns that it lacks.
pub mod Offer
pub mod Stored
use versatile.Base.{
  ℕ, zero, suc, ◌+◌, ◌-◌, String, ◌<>◌, false, List, [], ◌∷◌, length, ltb, if◌then◌else◌,
}
use versatile.Base.Int.{ℤ, pos, negsuc}
use versatile.Base.Decimal.{decimal}
use versatile.Py.Value.{
  type_error, Result, ok, err, Value, int, number, get, iterate, size_of, sequence, as_text,
}
use versatile.Py.Text.{repr_int, to_str}
use versatile.Py.Text.Number.{to_int}
use versatile.Py.Exec.{pure, lift, traverse, try_except, ◌>>=◌, ◌>>◌}
use versatile.Manager.{dict_of}
use versatile.Resolver.{Server, Act, Reply, json, connect, execute, commit, only_cell}
use versatile.Resolver.ServiceId.{gen_service_id}

-- The number that `count(*)` gives.
abbrev pub as_count : Value → Result ℕ
as_count (int (pos n)) = ok n
as_count _ = err type_error

-- The number of the `i`-th column that is added to a table of `columns` columns, four of which are
-- no attributes: columns - 4 + 1 + i.
unfoldable pub column_number : ℕ → ℕ → ℤ
column_number columns i =
    if ltb (columns + i) 3 then negsuc (2 - (columns + i)) else pos (columns + i - 3)

-- ", attr1, attr2, …" behind the first `i` names
unfoldable pub attr_names : ℕ → List Value → String → String
attr_names i [] names = names
attr_names i (a ∷ attributes) names =
    attr_names (suc i) attributes (names <> ", attr" <> decimal (i + 1))

-- ", 'a', 'b', …"
unfoldable pub attr_values : List String → String → String
attr_values [] values = values
attr_values (a ∷ attributes) values = attr_values attributes (values <> ", '" <> a <> "'")

abbrev pub error_reply : ℕ → Reply
error_reply error = json (dict_of (("error", number error) ∷ []))

module _ (V : Server) where
  -- The loop that adds columns: the `i`-th of `missing` that are left.
  unfoldable pub add_columns : ℕ → ℕ → ℕ → Act V Unit
  add_columns columns i zero = pure tt
  add_columns columns i (suc missing) = do
    execute V (
        "ALTER table Service add "
        <> ("attr" <> repr_int (column_number columns i))
        <> " varchar(50) default '.'")
    add_columns columns (i + 1) missing

  -- One round over `services`. The count of columns is the one from before the loop.
  unfoldable pub insert_service : ℕ → String → Value → Act V (List Value)
  unfolding add_columns
  insert_service columns device_id service = do
    service_type ← lift (get service "serviceType")
    service_id ← gen_service_id V service_type
    attributes ← lift (get service "attributes")
    size ← lift (size_of attributes)
    add_columns columns 0 (size + 4 - columns)
    attributes ← lift (sequence attributes)
    texts ← traverse (λ a. lift (as_text a)) attributes
    type_text ← lift (as_text service_type)
    execute V (
        "INSERT into Service (serviceID, deviceID, serviceType"
        <> attr_names 0 attributes ""
        <> ") values ('"
        <> to_str (λ n. false) service_id
        <> "', '"
        <> device_id
        <> "', '"
        <> type_text
        <> "'"
        <> attr_values texts ""
        <> ")")

  unfoldable pub insert_services : Value → String → Act V Reply
  unfolding insert_service
  insert_services json_dict device_id = do
    service_list ← lift (get json_dict "services")
    rows ← execute V "SELECT count(*) from information_schema.columns where table_name = 'Service'"
    cell ← only_cell V rows
    columns ← lift (as_count cell)
    services ← lift (iterate service_list)
    traverse (insert_service columns device_id) services
    commit V
    pure (error_reply 0)

  unfoldable pub update_work : Value → Act V Reply
  unfolding insert_services
  update_work json_dict = do
    connect V
    device ← lift (get json_dict "deviceID")
    device ← lift (to_int device)
    let device_id = repr_int device
    exist ← execute V ("SELECT dummyID from Device where deviceID='" <> device_id <> "'")
    if ltb 0 (length exist) then insert_services json_dict device_id else pure (error_reply 1)

  unfoldable pub update : Value → Act V Reply
  update json_dict = try_except (update_work json_dict) (λ e. pure (error_reply 1))
