-- ===== src/Resolver/Request.antt =====
-- `Request` of the Flask service: a request for a service is stored with its requirements.
pub mod Stored
use versatile.Base.{String, ◌<>◌, List, if◌then◌else◌}
use versatile.Py.Value.{failure, Value, is_none, get, iterate, as_text}
use versatile.Py.Exec.{pure, raise, lift, traverse, try_except, ◌>>=◌, ◌>>◌}
use versatile.Resolver.{Server, Act, Reply, text, error_text, connect, execute, commit, only_cell}
use versatile.Resolver.Join.{next_id}

module _ (V : Server) where
  -- One round over `qosRequirements`.
  unfoldable pub insert_requirement : String → Value → Act V (List Value)
  insert_requirement request_id requirement = do
    metric_name ← lift (get requirement "metricName")
    metric_unit ← lift (get requirement "metricUnit")
    metric_value ← lift (get requirement "metricValue")
    metric_operator ← lift (get requirement "metricOperator")
    metric_name ← lift (as_text metric_name)
    metric_unit ← lift (as_text metric_unit)
    metric_value ← lift (as_text metric_value)
    metric_operator ← lift (as_text metric_operator)
    execute V (
        "INSERT into QosRequirement (requestID, metricName, metricUnit, metricValue, metricOperator) values ('"
        <> request_id <> "', '" <> metric_name <> "', '" <> metric_unit <> "', '" <> metric_value
        <> "', '" <> metric_operator <> "')")

  unfoldable pub request_work : Value → Act V Reply
  unfolding insert_requirement
  request_work json_dict = do
    connect V
    rows ← execute V "SELECT MAX(requestID) From Request"
    max_id ← only_cell V rows
    request_id ← lift (next_id max_id)
    rows ← execute V "SELECT MAX(serviceID) from Service"
    service_id ← only_cell V rows
    if is_none service_id then raise (failure "Service is not Available") else do
      device_id ← lift (get json_dict "deviceID")
      service_type ← lift (get json_dict "serviceType")
      requirements ← lift (get json_dict "qosRequirements")
      keywords ← lift (get json_dict "keywords")
      fields ← lift (get json_dict "additionalFields")
      device_id ← lift (as_text device_id)
      service_id ← lift (as_text service_id)
      execute V (
          "INSERT into Request (requestID, deviceID, serviceID) values ('" <> request_id <> "', '"
          <> device_id <> "', '" <> service_id <> "')")
      requirements ← lift (iterate requirements)
      traverse (insert_requirement request_id) requirements
      commit V
      pure (text "Good")

  unfoldable pub request : Value → Act V Reply
  request json_dict = try_except (request_work json_dict) (λ e. pure (error_text e))
