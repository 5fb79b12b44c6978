-- ===== src/Tests/QueryTests.antt =====
-- A query to the manager from a device that the table has.
use versatile.Base.{String, ◌≡◌, refl, true, List, [], ◌∷◌}
use versatile.Base.Chars.{has_char}
use versatile.Base.Dict.{contains, insert}
use versatile.Py.Text.{to_str}
use versatile.Py.Exec.{◌>>=◌}
use versatile.Py.Value.{ok, bool, str, list_of, dict, Fields, field_of}
use versatile.Manager.{Manager, fields, execute}
use versatile.Manager.Database.Statements.{intercalate, select_assignments}
use versatile.Manager.Database.Lookup.{IsPlain}
use versatile.Manager.Device.{device_of}
use versatile.Manager.Query.{query}
use versatile.Manager.Query.Replies.{reply, query_lem}
use versatile.Tests.Sample.{sample, sample-IsLookup, start}

abbrev stored_device : Manager (List String)
stored_device = start ("SELECT * FROM Device WHERE deviceId = '0a3'" ∷ [])

abbrev video : Fields
video = fields (
    ("relay", str "none")
    ∷ ("queryType", str "Content")
    ∷ ("category", str "Video")
    ∷ ("requirements", list_of [])
    ∷ [])

plain_0a3 : IsPlain "0a3"
unfolding has_char
plain_0a3 = record { no_quote = refl; no_backslash = refl }

query_lem_example : query sample "0a3" (dict video) stored_device ≡ (
  ok tt,
  record stored_device {
    device_cache = ("0a3", bool true) ∷ [];
    published = ("/utilization/reply/0a3", reply video (list_of [])) ∷ [];
  },
)
unfolding field_of device_of ◌>>=◌ contains execute insert intercalate select_assignments to_str
query_lem_example =
    query_lem sample (sample-IsLookup "Device" "deviceId") "0a3" "0a3" "Content" video []
      stored_device refl plain_0a3 refl refl
