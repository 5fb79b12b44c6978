-- ===== src/Tests/CachedTests.antt =====
-- A join that fails behind the choice of its ID: '0a3' is in the table, so the ID is '4a3'.
use versatile.Base.{ℕ, zero, suc, ◌<◌, String, ◌≡◌, refl, true, false, List, [], ◌∷◌, arith}
use versatile.Base.Chars.{has_char}
use versatile.Base.Decimal.{decimal}
use versatile.Base.Dict.{contains}
use versatile.Py.Value.{str, null, dict, Fields, field_of}
use versatile.Manager.{Manager, fields}
use versatile.Manager.Database.Lookup.{IsPlain}
use versatile.Manager.GenId.FreeFlag.{candidate}
use versatile.Manager.GenId.Fresh.{taken}
use versatile.Manager.Join.{join}
use versatile.Manager.Join.Cached.{join_caches}
use versatile.Tests.Sample.{sample, sample-IsLookup, start}

abbrev stored_device : Manager (List String)
stored_device = start ("SELECT * FROM Device WHERE deviceId = '0a3'" ∷ [])

abbrev no_interfaces : Fields
no_interfaces = fields (("relay", str "none") ∷ ("uniqueCodes", null) ∷ [])

no_relay : field_of "relay" no_interfaces ≡ str "none"
unfolding field_of
no_relay = refl

plain_a3 : IsPlain "a3"
unfolding has_char
plain_a3 = record { no_quote = refl; no_backslash = refl }

free_id :
    taken sample
      (sample-IsLookup "Device" "deviceId")
      "a3"
      plain_a3
      stored_device
      (candidate "a3" 0 1)
    ≡ false
unfolding decimal contains
free_id = refl

used_ids :
    (i : ℕ)
    → i < 1
    → taken sample
        (sample-IsLookup "Device" "deviceId")
        "a3"
        plain_a3
        stored_device
        (candidate "a3" 0 i)
      ≡ true
unfolding decimal contains
used_ids zero h = refl
used_ids (suc i) h = absurd (omega arith)

join_caches_example :
    contains
      (candidate "a3" 0 1)
      (join sample "a3" (dict no_interfaces) stored_device).1.device_cache
    ≡ true
join_caches_example =
    join_caches sample (sample-IsLookup "Device" "deviceId") "a3" plain_a3 no_interfaces 1
      stored_device no_relay (omega arith) free_id used_ids
