-- ===== src/Socket/Update.antt =====
-- `Update` of the socketIO service.
pub mod Agrees
pub mod Unknown
pub mod Untyped
use versatile.Base.{
  ℕ, zero, suc, ◌+◌, ◌-◌, String, ◌<>◌, Bool, List, [], ◌∷◌, length, ltb, if◌then◌else◌,
}
use versatile.Base.Decimal.{decimal}
use versatile.Py.Value.{Value, null, get, iterate, size_of, sequence, as_text}
use versatile.Py.Text.{repr_int}
use versatile.Py.Text.Number.{to_int}
use versatile.Py.Exec.{pure, lift, traverse, try_except, ◌>>=◌, ◌>>◌}
use versatile.Resolver.{Server}
use versatile.Resolver.Update.{as_count, column_number, attr_names, attr_values}
use versatile.Socket.{Act, connect, execute, commit, only_cell, emit, error_message}
use versatile.Socket.ServiceId.{gen_service_id}

module _ (V : Server) where
  -- The loop that adds columns: the `i`-th of `missing` that are left.
  unfoldable pub add_columns : ℕ → ℕ → ℕ → Act V Unit
  add_columns columns i zero = pure tt
  add_columns columns i (suc missing) = do
    execute V (
        "ALTER table Service add "
        <> ("attr" <> repr_int (column_number columns i))
        <> " varchar(50) default '.'")
    add_columns columns (i + 1) missing

  -- One round over `services`. The print of an ID that is no text raises.
  unfoldable pub insert_service : ℕ → String → Value → Act V (List Value)
  unfolding add_columns
  insert_service columns device_id service = do
    service_type ← lift (get service "serviceType")
    service_id ← gen_service_id V service_type
    attributes ← lift (get service "attributes")
    size ← lift (size_of attributes)
    add_columns columns 0 (size + 4 - columns)
    attributes ← lift (sequence attributes)
    texts ← traverse (λ a. lift (as_text a)) attributes
    id_text ← lift (as_text service_id)
    type_text ← lift (as_text service_type)
    execute V (
        "INSERT into Service (serviceID, deviceID, serviceType"
        <> attr_names 0 attributes ""
        <> ") values ('"
        <> id_text
        <> "', '"
        <> device_id
        <> "', '"
        <> type_text
        <> "'"
        <> attr_values texts ""
        <> ")")

  unfoldable pub insert_services : Value → String → Act V Unit
  unfolding insert_service
  insert_services content device_id = do
    service_list ← lift (get content "services")
    rows ← execute V "SELECT count(*) from information_schema.columns where table_name = 'Service'"
    cell ← only_cell V rows
    columns ← lift (as_count cell)
    services ← lift (iterate service_list)
    traverse (insert_service columns device_id) services
    commit V

  -- For a device that is not registered the handler returns, and emits nothing.
  unfoldable pub update_work : Value → Act V Value
  unfolding insert_services
  update_work content = do
    connect V
    device ← lift (get content "deviceID")
    device ← lift (to_int device)
    let device_id = repr_int device
    exist ← execute V ("SELECT dummyID from Device where deviceID='" <> device_id <> "'")
    if ltb 0 (length exist)
        then (do insert_services content device_id; emit V "Uack" (error_message 0); pure null)
        else pure (error_message 1)

  unfoldable pub update : Value → Act V Value
  update content =
      try_except (update_work content) (λ e. do emit V "Uack" (error_message 1); pure null)
