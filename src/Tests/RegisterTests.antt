-- ===== src/Tests/RegisterTests.antt =====
-- A registration of one item of a cached device.
use versatile.Base.{String, ◌≡◌, refl, true, List, [], ◌∷◌, map}
use versatile.Base.Chars.{has_char}
use versatile.Manager.Database.Lookup.{IsPlain}
use versatile.Base.Decimal.{decimal}
use versatile.Base.Dict.{contains}
use versatile.Py.Value.{ok, bool, str, dict, list_of, Fields, put, field_of, truthy}
use versatile.Py.Text.{to_str}
use versatile.Py.Exec.{traverse, ◌>>=◌}
use versatile.Manager.{Manager, fields, execute, commit}
use versatile.Manager.Database.{insert_text}
use versatile.Manager.Database.Statements.{
  intercalate, insert_assignments, insert_statement, insert_statements,
}
use versatile.Manager.Device.{device_of}
use versatile.Manager.Register.{put_attributes, register}
use versatile.Manager.Register.Stored.{
  Item, item_dicts, item_row, reply_entry, register_reply, register-stores,
}
use versatile.Tests.Sample.{sample, sample-IsLookup, start}

abbrev pub movie_fields : Fields
movie_fields = fields (
    ("index", str "1")
    ∷ ("hash", str "h")
    ∷ ("cache", bool true)
    ∷ ("attributes", list_of (str "HD" ∷ []))
    ∷ [])

abbrev pub movie : Item
unfolding field_of truthy
movie = record {
  item = movie_fields;
  index = "1";
  hash = "h";
  attributes = str "HD" ∷ [];
  its_index = refl;
  its_hash = refl;
  its_attributes = refl;
  no_search = refl;
}

abbrev payload : Fields
payload = fields (
    ("relay", str "none")
    ∷ ("registerID", str "r1")
    ∷ ("registerList", list_of (item_dicts (movie ∷ [])))
    ∷ [])

abbrev queries : List String
queries =
    "INSERT INTO RegisterList SET deviceId = '0a3', providingId = '128h', hash = 'h', registerType = 'None', category = 'None', attr1 = 'HD'"
    ∷ []

abbrev manager : Manager (List String)
manager = record (start []) { device_cache = ("0a3", bool true) ∷ [] }

is_listed : field_of "registerList" payload ≡ list_of (item_dicts (movie ∷ []))
unfolding field_of
is_listed = refl

pub is_sender : device_of "0a3" (str "none") ≡ ok (str "0a3")
unfolding device_of
is_sender = refl

statements :
    insert_statements sample "RegisterList" (map (item_row "0a3") (movie ∷ [])) ≡ ok queries
unfolding insert_statements insert_statement insert_assignments insert_text intercalate to_str
    field_of put_attributes put decimal truthy
statements = refl

plain_0a3 : IsPlain "0a3"
unfolding has_char
plain_0a3 = record { no_quote = refl; no_backslash = refl }

register-stores_example : register sample "0a3" (dict payload) manager ≡ (
  ok tt,
  record manager {
    published =
        (
          "/configuration/register_ack/0a3",
          register_reply (str "r1") (str "none") (reply_entry movie ∷ []),
        )
        ∷ [];
  },
)
unfolding contains execute commit traverse ◌>>=◌ field_of
register-stores_example =
    register-stores sample (sample-IsLookup "Device" "deviceId") "0a3" "0a3" payload (movie ∷ [])
      queries manager is_sender plain_0a3 is_listed statements
