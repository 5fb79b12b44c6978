-- ===== src/Manager/Join/Cached.antt =====
-- The device that a join leaves in the cache.
use versatile.Base.{Bool, ℕ, ◌<◌, String, ◌≡◌, true, false}
use versatile.Base.Dict.{contains}
use versatile.Py.Value.{str, dict, Fields, field_of, get}
use versatile.Py.Exec.{◌>>=◌}
use versatile.World.{World}
use versatile.Manager.{Manager}
use versatile.Manager.Database.Lookup.{IsLookup, IsPlain}
use versatile.Manager.Device.{device_of}
use versatile.Manager.GenId.FreeFlag.{candidate}
use versatile.Manager.GenId.Fresh.{taken, join_gen_id_first}
use versatile.Manager.Quiet.{join_rows-Quiet}
use versatile.Manager.Answers.{answer_lem}
use versatile.Manager.Join.{join_work, join}

module _ (W : World) {stored : W.State → String → Bool}
    (look : IsLookup W "Device" "deviceId" stored) (temp_id : String)
    (plain : IsPlain temp_id) where
  -- For a temporary ID without quote and backslash, in a database whose SELECT of a device is a
  -- lookup for such IDs: if the k-th ID that is tried is the first that neither the cache nor the
  -- table has, and k calls fit into the call depth, that ID is in the cache after a join without a
  -- relay, whatever the other fields are and whether or not the rows could be stored.
  pub join_caches :
      (fs : Fields) (k : ℕ) (s : Manager W.State)
      → field_of "relay" fs ≡ str "none"
      → k < W.call_depth
      → taken W look temp_id plain s (candidate temp_id 0 k) ≡ false
      → ((i : ℕ) → i < k → taken W look temp_id plain s (candidate temp_id 0 i) ≡ true)
      → contains (candidate temp_id 0 k) (join W temp_id (dict fs) s).1.device_cache ≡ true
  unfolding join join_work device_of get ◌>>=◌
  join_caches fs k s none deep free used =
      let (s', chosen, found) =
        join_gen_id_first W look temp_id plain W.call_depth 0 k s deep free used in
      let id = candidate temp_id 0 k in
      let quiet = (join_rows-Quiet W (dict fs) (str "none") id).at s' in
      rw (answer_lem W _ _ _ s) (rw (none, chosen) (quiet.grows id found.cached))
