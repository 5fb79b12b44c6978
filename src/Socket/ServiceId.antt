-- ===== src/Socket/ServiceId.antt =====
-- `genServiceID` of the socketIO service, with more types of services than the Flask service has.
pub mod Agrees
use versatile.Base.{◌+◌, String, ◌<>◌, if◌then◌else◌}
use versatile.Py.Value.{name_error, Result, ok, err, Value, str, number, is_text}
use versatile.Py.Exec.{lift, gets, modify, ◌>>=◌, ◌>>◌}
use versatile.Resolver.{Server}
use versatile.Resolver.ServiceId.{four_digits}
use versatile.Socket.{Act}

-- The `if` ladder over the service types. The branch of "ImageTransfer" names `manageSTr`.
unfoldable pub service_id : Value → String → Result Value
service_id service manage_str =
    if is_text service "Streaming"
    then ok (str ("0" <> manage_str <> "0"))
    else if is_text service "Web"
    then ok (str ("1" <> manage_str <> "0"))
    else if is_text service "Voice"
    then ok (str ("1" <> manage_str <> "1"))
    else if is_text service "FileTransfer"
    then ok (str ("0" <> manage_str <> "1"))
    else if is_text service "Game"
    then ok (str ("0" <> manage_str <> "0"))
    else if is_text service "BestEffort"
    then ok (str ("0" <> manage_str <> "0"))
    else if is_text service "CPU"
    then ok (str ("0" <> manage_str <> "0"))
    else if is_text service "Bandwidth"
    then ok (str ("0" <> manage_str <> "0"))
    else if is_text service "Disk"
    then ok (str ("1" <> manage_str <> "1"))
    else if is_text service "Temperature"
    then ok (str ("0" <> manage_str <> "0"))
    else if is_text service "ImageTransfer"
    then err name_error
    else ok (number 1)

module _ (V : Server) where
  unfoldable pub gen_service_id : Value → Act V Value
  gen_service_id service = do
    modify (λ s. record s { manage_num = s.manage_num + 1 })
    n ← gets (λ s. s.manage_num)
    lift (service_id service (four_digits n))
