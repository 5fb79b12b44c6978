-- ===== src/Manager/Device/Known.antt =====
-- The check that `register`, `update` and `query` make of their device, on every branch.
use versatile.Base.{String, ◌≡◌, refl, Bool, true, false, inl, inr, Bool-cases, if◌then◌else◌}
use versatile.Base.Dict.{contains, insert}
use versatile.Py.Value.{failure, Result, ok, err, bool, truthy, list_of, get, find, field_of}
use versatile.Py.Exec.{pure, raise, modify, continue, ◌>>=◌, ◌>>◌}
use versatile.World.{World}
use versatile.Manager.{Manager, Act, cache_device, is_cached}
use versatile.Manager.Database.{send_db_query}
use versatile.Manager.Database.Lookup.{IsLookup, IsPlain, db_proc-id_query}
use versatile.Manager.Device.{require_some, require_device}

module _ (W : World) {stored : W.State → String → Bool}
    (look : IsLookup W "Device" "deviceId" stored) where
  -- Known devices are those that are in the cache or in the table.
  abbrev pub checked : Bool → Bool → String → Manager W.State → Result Unit × Manager W.State
  checked true _ device s = (ok tt, s)
  checked false true device s =
      (ok tt, record s { device_cache = insert device (bool true) s.device_cache })
  checked false false device s = (err (failure "No Device Error"), s)

  abbrev pub known_device : String → Act W Unit
  known_device device s = checked (contains device s.device_cache) (stored s.db device) device s

  -- What follows the check, step by step.
  pub same_after :
      {A B : Type 0} {f g : A → Act W B}
      → ((a : A) (s : Manager W.State) → f a s ≡ g a s)
      → (out : Result A × Manager W.State) → continue out.0 f out.1 ≡ continue out.0 g out.1
  same_after h (ok a, s) = h a s
  same_after h (err e, s) = refl

  pub require_device_lem :
      (device : String) (s : Manager W.State)
      → IsPlain device
      → require_device W device s
        ≡ checked (contains device s.device_cache) (stored s.db device) device s
  unfolding require_device require_some is_cached cache_device send_db_query get find field_of
      modify pure raise ◌>>=◌
  require_device_lem device s plain = elim (Bool-cases (contains device s.device_cache)) [
    | inl cached ↦ rw cached refl
    | inr unknown ↦
        rw (unknown, db_proc-id_query W "Device" "deviceId" device look s refl plain)
          (passes (truthy (list_of (look.rows s.db device))) (stored s.db device)
            (look.found s.db device))
  ]
    where
      passes :
          (found held : Bool)
          → found ≡ held
          → ((if found then pure tt else raise (failure "No Device Error"))
                >> cache_device W device (bool true))
              s
            ≡ checked false held device s
      passes true true h = refl
      passes false false h = refl
      passes true false h = cc
      passes false true h = cc
