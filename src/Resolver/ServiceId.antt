-- ===== src/Resolver/ServiceId.antt =====
-- `genServiceID`: an ID from the type of the service and a running number.
pub mod Unique
use versatile.Base.{ℕ, ◌+◌, String, ◌<>◌, Bool, ◌||◌, List, [], ◌∷◌, ltb, if◌then◌else◌}
use versatile.Base.Decimal.{decimal}
use versatile.Py.Value.{Value, str, number, is_text}
use versatile.Py.Exec.{pure, gets, modify, ◌>>=◌, ◌>>◌}
use versatile.Resolver.{Server, Act}

-- "%04d" % n
unfoldable pub four_digits : ℕ → String
four_digits n =
    if ltb n 10
    then "000" <> decimal n
    else if ltb n 100
    then "00" <> decimal n
    else if ltb n 1000
    then "0" <> decimal n
    else decimal n

-- The `if` ladder over the service types.
unfoldable pub service_id : Value → String → Value
service_id service manage_str =
    if is_text service "Streaming"
    then str ("0" <> manage_str <> "0")
    else if is_text service "Web"
    then str ("1" <> manage_str <> "0")
    else if is_text service "Voice"
    then str ("1" <> manage_str <> "1")
    else if is_text service "FileTransfer"
    then str ("0" <> manage_str <> "1")
    else if is_text service "Game"
    then str ("0" <> manage_str <> "0")
    else if is_text service "BestEffort"
    then str ("0" <> manage_str <> "0")
    else number 1

module _ (V : Server) where
  unfoldable pub gen_service_id : Value → Act V Value
  gen_service_id service = do
    modify (λ s. record s { manage_num = s.manage_num + 1 })
    n ← gets (λ s. s.manage_num)
    pure (service_id service (four_digits n))
