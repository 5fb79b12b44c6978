-- ===== src/Tests/DeviceTests.antt =====
-- The theorems about the devices, statements and columns of the manager at concrete inputs.
use versatile.Base.{String, ◌≡◌, refl, true, Option, none, some, List, [], ◌∷◌}
use versatile.Base.Decimal.{decimal}
use versatile.Base.Dict.{contains}
use versatile.Py.Value.{Value, null, bool, str, end, field, find}
use versatile.Manager.{Manager, fields}
use versatile.Manager.Database.{select_columns}
use versatile.Manager.Database.Injection.{select_injection}
use versatile.Manager.Register.{put_attributes}
use versatile.Manager.Register.Attributes.{put_attributes_at}
use versatile.Manager.Dispatch.Cache.{on_messages, on_messages_keep_devices}
use versatile.Tests.Sample.{sample, start}

-- '0a3' is in the table.
abbrev one_device : Manager (List String)
one_device = start ("SELECT * FROM Device WHERE deviceId = '0a3'" ∷ [])

select_injection_example :
    select_columns sample 0 (field "deviceId" (str "x' and relay = 'y") end) "SELECT "
    ≡ select_columns sample 0 (field "deviceId" (str "x") (field "relay" (str "y") end)) "SELECT "
select_injection_example = select_injection sample "SELECT " "deviceId" "x" "relay" "y"

put_attributes_at_example :
    find "attr2" (put_attributes 0 (str "30fps" ∷ str "HD" ∷ []) (fields (("hash", null) ∷ [])))
    ≡ some (str "HD")
unfolding decimal
put_attributes_at_example =
    put_attributes_at (str "30fps" ∷ str "HD" ∷ []) (fields (("hash", null) ∷ [])) 1 (str "HD") refl

abbrev cached_device : Manager (List String)
cached_device = record (start []) { device_cache = ("0a3", bool true) ∷ [] }

abbrev leave_messages : List (String × Option Value)
leave_messages =
    ("/configuration/leave/0a3", some (bool true)) ∷ ("/configuration/join/b", none) ∷ []

cached_before : contains "0a3" cached_device.device_cache ≡ true
unfolding contains
cached_before = refl

on_messages_keep_devices_example :
    contains "0a3" (on_messages sample leave_messages cached_device).device_cache ≡ true
on_messages_keep_devices_example =
    on_messages_keep_devices sample leave_messages cached_device "0a3" cached_before
