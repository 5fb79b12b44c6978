-- ===== src/Socket/Request.antt =====
-- `Request` of the socketIO service: the request is stored, and fixed matching results are sent to all
-- clients.
pub mod Matching
pub mod Stored
use versatile.Base.{String, ◌<>◌, List, [], ◌∷◌, if◌then◌else◌}
use versatile.Py.Value.{failure, Value, str, is_none, is_text, get, iterate, as_text}
use versatile.Py.Exec.{pure, raise, lift, traverse, try_except, ◌>>=◌, ◌>>◌}
use versatile.Manager.{dict_of}
use versatile.Resolver.{Server}
use versatile.Resolver.Join.{next_id}
use versatile.Socket.{Act, connect, execute, commit, only_cell, emit, emit_all, error_message}

abbrev pub hop : String → String → String → String → String → String → Value
hop next_dev next_interface prev_dev prev_interface device_id service_type = dict_of (
    ("NextDev", str next_dev)
    ∷ ("NextInterface", str next_interface)
    ∷ ("PrevDev", str prev_dev)
    ∷ ("PrevInterface", str prev_interface)
    ∷ ("deviceID", str device_id)
    ∷ ("serviceType", str service_type)
    ∷ [])

-- The test data, for a service type.
abbrev pub matching : Value → List Value
matching service_type =
    if is_text service_type "Streaming"
    then hop "" "" "001" "WiFi" "002" "streaming" ∷ hop "002" "WiFi" "" "" "001" "streaming" ∷ []
    else hop "" "" "002" "BT" "003" "ImageTransfer"
      ∷ hop "003" "BT" "001" "WiFi" "002" "ImageTransfer"
      ∷ hop "002" "WiFi" "" "" "001" "ImageTransfer"
      ∷ []

module _ (V : Server) where
  -- One round over `qosRequirements`.
  unfoldable pub insert_requirement : String → Value → Act V (List Value)
  insert_requirement request_id requirement = do
    metric_name ← lift (get requirement "metricName")
    metric_unit ← lift (get requirement "metricUnit")
    metric_value ← lift (get requirement "metricValue")
    metric_operator ← lift (get requirement "metricOperator")
    metric_name ← lift (as_text metric_name)
    metric_unit ← lift (as_text metric_unit)
    metric_value ← lift (as_text metric_value)
    metric_operator ← lift (as_text metric_operator)
    execute V (
        "INSERT into QosRequirement (requestID, metricName, metricUnit, metricValue, metricOperator) values ('"
        <> request_id <> "', '" <> metric_name <> "', '" <> metric_unit <> "', '" <> metric_value
        <> "', '" <> metric_operator <> "')")

  -- Up to the commit; it returns the type of the service. The prints raise if a field is no text.
  unfoldable pub request_work : Value → Act V Value
  unfolding insert_requirement
  request_work content = do
    connect V
    rows ← execute V "SELECT MAX(CAST(requestID as  SIGNED)) From Request"
    max_id ← only_cell V rows
    request_id ← lift (next_id max_id)
    rows ← execute V "SELECT MAX(serviceID) from Service"
    service_id ← only_cell V rows
    if is_none service_id then raise (failure "Service is not Available") else do
      device_id ← lift (get content "deviceID")
      service_type ← lift (get content "serviceType")
      requirements ← lift (get content "qosRequirements")
      keywords ← lift (get content "keywords")
      device_id ← lift (as_text device_id)
      type_text ← lift (as_text service_type)
      keywords ← lift (as_text keywords)
      service_id ← lift (as_text service_id)
      execute V (
          "INSERT into Request (requestID, deviceID, serviceID) values ('" <> request_id <> "', '"
          <> device_id <> "', '" <> service_id <> "')")
      requirements ← lift (iterate requirements)
      traverse (insert_requirement request_id) requirements
      commit V
      pure service_type

  unfoldable pub request : Value → Act V Unit
  unfolding request_work
  request content =
      try_except
        (do
          service_type ← request_work content
          traverse (emit_all V "MatchingRequest") (matching service_type)
          emit V "Rack" (error_message 0))
        (λ e. emit V "Rack" (error_message 1))
