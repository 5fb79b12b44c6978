-- ===== src/Tests/SentTests.antt =====
-- A registration of two items with the broker version of the manager.
use versatile.Base.{String, true, false, ◌≡◌, refl, List, [], ◌∷◌, map}
use versatile.Base.Decimal.{decimal}
use versatile.Manager.GenId.{gen_flag}
use versatile.Py.Value.{ok, null, number, bool, str, dict, list_of, Fields, put, field_of, truthy}
use versatile.Manager.{fields}
use versatile.Manager.Register.{put_attributes}
use versatile.Manager.Register.Stored.{Item, item_dicts}
use versatile.Broker.Proc.{◌>>◌}
use versatile.Broker.Device.{require_device}
use versatile.Broker.Register.{register_work}
use versatile.Broker.Register.Sent.{id_entry, sent_rows, send_and_reply, register_sends}
use versatile.Broker.Register.Unique.{register_id_injective}
use versatile.Tests.RegisterTests.{movie, is_sender}

abbrev page_fields : Fields
page_fields = fields (
    ("index", str "2")
    ∷ ("hash", str "p")
    ∷ ("segment", bool true)
    ∷ ("attributes", list_of (str "10Mbps" ∷ []))
    ∷ [])

abbrev page : Item
unfolding field_of truthy
page = record {
  item = page_fields;
  index = "2";
  hash = "p";
  attributes = str "10Mbps" ∷ [];
  its_index = refl;
  its_hash = refl;
  its_attributes = refl;
  no_search = refl;
}

abbrev items : List Item
items = movie ∷ page ∷ []

abbrev two_items : Fields
two_items = fields (("registerList", list_of (item_dicts items)) ∷ [])

-- The page gets the attribute of the movie.
sent_rows_test :
    sent_rows "0a3" [] items
    ≡ dict (
        fields (
          ("deviceId", str "0a3")
          ∷ ("providingId", str "h128")
          ∷ ("hash", str "h")
          ∷ ("registerType", field_of "registerType" movie.item)
          ∷ ("category", field_of "category" movie.item)
          ∷ ("attr1", str "HD")
          ∷ []))
      ∷ dict (
          fields (
            ("deviceId", str "0a3")
            ∷ ("providingId", str "p64")
            ∷ ("hash", str "p")
            ∷ ("registerType", field_of "registerType" page_fields)
            ∷ ("category", field_of "category" page_fields)
            ∷ ("attr1", str "HD")
            ∷ []))
      ∷ []
unfolding field_of put_attributes put decimal truthy
sent_rows_test = refl

are_listed : field_of "registerList" two_items ≡ list_of (item_dicts items)
unfolding field_of
are_listed = refl

register_sends_example : register_work 5 "0a3" (dict two_items) (str "none") (str "r1") ≡ (
    require_device "0a3"
    >> send_and_reply 5 (str "r1") (str "none") (map id_entry items) (sent_rows "0a3" [] items))
register_sends_example =
    register_sends 5 "0a3" "0a3" two_items (str "none") (str "r1") items is_sender are_listed

-- A number other than 0 is true.
movie_flag : gen_flag (bool true) null 0 ≡ ok 128
unfolding truthy gen_flag
movie_flag = refl

trailer_flag : gen_flag (number 1) (bool false) 0 ≡ ok 128
unfolding truthy gen_flag
trailer_flag = refl

abbrev one_hash : String
one_hash = "h"

register_id_injective_example :
    (one_hash ≡ "h")
    × (truthy (bool true) ≡ truthy (number 1))
    × (truthy null ≡ truthy (bool false))
register_id_injective_example =
    register_id_injective one_hash "h" (bool true) null (number 1) (bool false) 128 128 movie_flag
      trailer_flag refl
