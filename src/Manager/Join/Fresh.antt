-- ===== src/Manager/Join/Fresh.antt =====
-- The ID of a join, without any assumption about the database.
use versatile.Base.{
  ℕ, zero, suc, ◌<>◌, String, ◌≡◌, true, false, Option, none, some, length, arith, eq_iff,
}
use versatile.Base.Decimal.{decimal}
use versatile.Base.Dict.{contains, contains-insert}
use versatile.Py.Value.{recursion_error, Value, bool, str, dict, find, get, as_text, truthy}
use versatile.Py.Exec.{◌>>=◌}
use versatile.Py.Exec.Post.{
  Returns, returns_rules, Post, Post-pure, Post-raise, Post-returns, Post-lift, Post-gets,
  Post-keeps, Post-if, Post-weaken, Post-both, Post-bind,
}
use versatile.World.{World}
use versatile.Manager.{Manager, cache_device}
use versatile.Manager.Database.{db_select, id_query}
use versatile.Manager.GenId.{join_gen_id}
use versatile.Manager.GenId.FreeFlag.{contains-free_flag}
use versatile.Manager.Device.{device_of}
use versatile.Manager.Join.{join_rows, join_work}
use versatile.Manager.Quiet.{Quiet, db_proc-Quiet, cache_device-Quiet, join_rows-Quiet}

-- The ID in a reply to a join.
unfoldable pub id_of : Value → Option Value
unfolding find
id_of (dict fs) = find "id" fs
id_of _ = none

module _ (W : World) (s0 : Manager W.State) where
  abbrev pub Grown : Manager W.State → Type 0
  Grown s = (id : String) → contains id s0.device_cache ≡ true → contains id s.device_cache ≡ true

  -- Not cached at the start,
  abbrev pub New : String → Manager W.State → Type 0
  New id s = Grown s × (contains id s0.device_cache ≡ false)

  -- and cached now.
  abbrev pub Given : String → Manager W.State → Type 0
  Given id s = New id s × (contains id s.device_cache ≡ true)

  absent_before :
      (id : String) (s : Manager W.State)
      → Grown s
      → contains id s.device_cache ≡ false
      → contains id s0.device_cache ≡ false
  absent_before id s grown absent = ground (arith, grown id)

  cache_Given : (id : String) (v : Value) → Post (New id) (cache_device W id v) (λ u. Given id)
  unfolding cache_device
  cache_Given id v = record {
    at = λ s new u e. (
      ((λ j h. ground (arith, contains-insert id j v s.device_cache, new.0 j)), new.1),
      ground (arith, contains-insert id id v s.device_cache, eq_iff id id),
    );
  }

  Given-Quiet : (id : String) (s s' : Manager W.State) → Quiet W s s' → Given id s → Given id s'
  Given-Quiet id s s' quiet ((grown, absent), given) =
      (((λ j h. quiet.grows j (grown j h)), absent), quiet.grows id given)

  -- A search that returns gives an ID that was not cached at the start, and is now.
  gen_id_Given :
      (depth : ℕ) (device_id : Value) (flag : ℕ)
      → Post Grown (join_gen_id W depth device_id flag) Given
  unfolding join_gen_id
  gen_id_Given zero device_id flag = Post-raise recursion_error
  gen_id_Given (suc depth) device_id flag =
      Post-bind (λ d. Grown) _ _ (Post-lift (as_text device_id))
        λ device.
          Post-bind (λ flag. New (decimal flag <> device)) _ _
            (Post-gets _ (λ s grown. (
              grown,
              absent_before _ s grown (
                  contains-free_flag device (suc (length s.device_cache)) s.device_cache flag
                    (omega arith)),
            )))
            λ flag.
              let id = decimal flag <> device in
              Post-bind (λ u. Given id) _ _ (cache_Given id (str "None"))
                λ u.
                  Post-bind (λ u. Given id) _ _
                    (Post-keeps _ (db_proc-Quiet W db_select (id_query "Device" "deviceId" id))
                      (Given-Quiet id))
                    λ payload.
                      Post-bind (λ u. Given id) _ _ (Post-lift (get payload "data"))
                        λ exist.
                          Post-bind (λ u. Given id) _ _
                            (Post-keeps _ (cache_device-Quiet W id (bool true)) (Given-Quiet id))
                            λ u.
                              Post-if (truthy exist) _ _
                                (Post-weaken _ (gen_id_Given depth device_id _) (λ s h. h.0.0))
                                (Post-pure id (λ s h. h))

  join_rows-id :
      (payload relay : Value) (id : String)
      → Returns (λ m. id_of m ≡ some (str id)) (join_rows W payload relay id)
  unfolding join_rows id_of ◌>>=◌
  join_rows-id payload relay id = search returns_rules depth 30

  -- The reply of a join that succeeds has such an ID.
  pub join_work-Given :
      (temp_id : String) (payload relay : Value)
      → Post Grown
          (join_work W temp_id payload relay)
          (λ m s. (id : String) × (id_of m ≡ some (str id)) × Given id s)
  unfolding join_work
  join_work-Given temp_id payload relay =
      Post-bind (λ d. Grown) _ _ (Post-lift (device_of temp_id relay))
        λ device. Post-bind Given _ _ (gen_id_Given W.call_depth device 0) λ id. named id (
          Post-both _ (Post-returns _ (join_rows-id payload relay id))
            (Post-keeps _ (join_rows-Quiet W payload relay id) (Given-Quiet id)))
    where
      named :
          (id : String)
          → Post
              (Given id)
              (join_rows W payload relay id)
              (λ m s. (id_of m ≡ some (str id)) × Given id s)
          → Post
              (Given id)
              (join_rows W payload relay id)
              (λ m s. (id : String) × (id_of m ≡ some (str id)) × Given id s)
      named id k = record { at = λ s p m e. let (same, given) = k.at s p m e in (id, same, given) }
