-- ===== src/Manager/GenId/Fresh.antt =====
-- The ID that `join_genID` finds.
use Prim.Native.Nat.{◌-◌}
use versatile.Base.{
  ℕ, zero, suc, ◌+◌, ◌*◌, ◌<◌, String, ◌<>◌, ◌≡◌, ◌≢◌, ◌⊎◌, refl, ap, ◌∙◌, Bool, true, false, ◌||◌,
  length, arith, Bool-cases, inl, inr, ◌==◌, eq_iff, if◌then◌else◌,
}
use versatile.Base.Decimal.{decimal}
use versatile.Base.Dict.{contains, insert, contains-insert}
use versatile.Py.Value.{ok, bool, str, get, find, as_text}
use versatile.Py.Exec.{◌>>=◌}
use versatile.World.{World}
use versatile.Manager.{Manager, cache_device}
use versatile.Manager.Database.Lookup.{IsLookup, IsPlain, IsPlain-decimal, db_proc-id_query}
use versatile.Manager.GenId.{free_flag, join_gen_id}
use versatile.Manager.GenId.FreeFlag.{candidate, candidate_ne, free_flag_steps, contains-free_flag}

module _ (W : World) {stored : W.State → String → Bool}
    (look : IsLookup W "Device" "deviceId" stored) (device : String) (plain : IsPlain device) where
  -- The two writes of one round.
  abbrev tried : String → Manager W.State → Manager W.State
  tried id s = record s {
    device_cache = insert id (bool true) (insert id (str "None") s.device_cache);
  }

  abbrev next_flag : Manager W.State → ℕ → ℕ
  next_flag s flag = free_flag (suc (length s.device_cache)) s.device_cache device flag

  round :
      (depth flag : ℕ) (s : Manager W.State)
      → let id = decimal (next_flag s flag) <> device in
        join_gen_id W (suc depth) (str device) flag s ≡ (
          if stored s.db id
          then join_gen_id W depth (str device) (next_flag s flag + 4) (tried id s)
          else (ok id, tried id s))
  unfolding join_gen_id cache_device get find as_text ◌>>=◌
  round depth flag s =
      let id = decimal (next_flag s flag) <> device in
      let s' : Manager W.State = record s {
        device_cache = insert id (str "None") s.device_cache;
      } in
      ground (
        arith,
        db_proc-id_query W "Device" "deviceId" id look s' refl
            (IsPlain-decimal (next_flag s flag) device plain),
        look.found s.db id,
      )

  -- In use: known to the cache or to the database.
  abbrev pub taken : Manager W.State → String → Bool
  taken s id = contains id s.device_cache || stored s.db id

  -- What the search leaves behind: the new ID is cached, what was cached still is, and what is
  -- cached besides was found in the database. Nothing else changes.
  pub record Found (s s' : Manager W.State) (new_id : String) : Type 0 where
    pub same_db : s'.db ≡ s.db
    pub same_queries : s'.query_cache ≡ s.query_cache
    pub same_published : s'.published ≡ s.published
    pub same_subscribed : s'.subscribed ≡ s.subscribed
    pub cached : contains new_id s'.device_cache ≡ true
    pub grows :
        (id : String) → contains id s.device_cache ≡ true → contains id s'.device_cache ≡ true
    pub only :
        (id : String) → contains id s'.device_cache ≡ true → (taken s id ≡ true) ⊎ (id ≡ new_id)

  contains-tried :
      (id j : String) (s : Manager W.State)
      → contains j (tried id s).device_cache ≡ (if id == j then true else contains j s.device_cache)
  contains-tried id j s = ground (
    arith,
    contains-insert id j (bool true) (insert id (str "None") s.device_cache),
    contains-insert id j (str "None") s.device_cache,
  )

  Found-tried : (id : String) (s : Manager W.State) → Found s (tried id s) id
  Found-tried id s = record {
    same_db = refl;
    same_queries = refl;
    same_published = refl;
    same_subscribed = refl;
    cached = ground (arith, contains-tried id id s, eq_iff id id);
    grows = λ j h. ground (arith, contains-tried id j s);
    only = λ j h. ground (arith, contains-tried id j s, eq_iff id j);
  }

  -- The rest of the search after a round whose ID is stored.
  Found-again :
      (id new_id : String) (s s' : Manager W.State)
      → stored s.db id ≡ true
      → Found (tried id s) s' new_id
      → Found s s' new_id
  Found-again id new_id s s' h f = record {
    same_db = f.same_db;
    same_queries = f.same_queries;
    same_published = f.same_published;
    same_subscribed = f.same_subscribed;
    cached = f.cached;
    grows = λ j c. f.grows j (ground (arith, contains-tried id j s));
    only = λ j c. ground (arith, f.only j c, contains-tried id j s, eq_iff id j);
  }

  order_cases : (a b : ℕ) → (a < b) ⊎ (a ≡ b) ⊎ (b < a)
  order_cases a b = grind arith

  -- The search is described by the first ID that is not in use.
  abbrev FirstFree : Manager W.State → ℕ → ℕ → Type 0
  FirstFree s flag k =
      (taken s (candidate device flag k) ≡ false)
      × ((i : ℕ) → i < k → taken s (candidate device flag i) ≡ true)

  -- The round ends at the first free ID, or at an ID before it that the database has.
  module _ (s : Manager W.State) (flag k j : ℕ) (free : FirstFree s flag k) where
    ends_there :
        contains (candidate device flag j) s.device_cache ≡ false
        → stored s.db (candidate device flag j) ≡ false
        → ((i : ℕ) → i < j → contains (candidate device flag i) s.device_cache ≡ true)
        → j ≡ k
    ends_there uncached absent passed = elim (order_cases j k) [
      | inl lt ↦ absurd (cc (free.1 j lt, uncached, absent))
      | inr (inl e) ↦ e
      | inr (inr lt) ↦ absurd (cc (free.0, passed k lt))
    ]

    both : taken s (candidate device flag j) ≡ false → stored s.db (candidate device flag j) ≡ false
    both h = ground arith

    goes_on :
        stored s.db (candidate device flag j) ≡ true
        → ((i : ℕ) → i < j → contains (candidate device flag i) s.device_cache ≡ true)
        → j < k
    goes_on present passed = elim (order_cases j k) [
      | inl lt ↦ lt
      | inr (inl e) ↦ absurd (cc (both (rw e free.0), present))
      | inr (inr lt) ↦ absurd (cc (free.0, passed k lt))
    ]

  -- The tries of the next round.
  shift :
      (flag m j i : ℕ)
      → m ≡ flag + 4 * j
      → candidate device (m + 4) i ≡ candidate device flag (i + (j + 1))
  shift flag m j i e = ap (λ n. decimal n <> device) (omega arith)

  shift_back :
      (flag m j k : ℕ)
      → m ≡ flag + 4 * j
      → j < k
      → candidate device (m + 4) (k - (j + 1)) ≡ candidate device flag k
  shift_back flag m j k e lt = ap (λ n. decimal n <> device) (omega arith)

  taken-tried_of_taken :
      (id j : String) (s : Manager W.State) → taken s j ≡ true → taken (tried id s) j ≡ true
  taken-tried_of_taken id j s h = ground (arith, contains-tried id j s)

  taken-tried_of_free :
      (id j : String) (s : Manager W.State)
      → id ≢ j
      → taken s j ≡ false
      → taken (tried id s) j ≡ false
  taken-tried_of_free id j s ne h = ground (arith, contains-tried id j s, eq_iff id j)

  -- Where the search goes on, the first free ID is the same.
  FirstFree-tried :
      (s : Manager W.State) (flag m j k : ℕ)
      → m ≡ flag + 4 * j
      → j < k
      → FirstFree s flag k
      → FirstFree (tried (candidate device flag j) s) (m + 4) (k - (j + 1))
  FirstFree-tried s flag m j k e lt (free, used) = (
    rw (shift_back flag m j k e lt)
        (taken-tried_of_free _ _ s (candidate_ne device flag j k (omega arith)) free),
    λ i h. rw (shift flag m j i e) (taken-tried_of_taken _ _ s (used (i + (j + 1)) (omega arith))),
  )

  abbrev Search : ℕ → ℕ → Manager W.State → String → Type 0
  Search depth flag s id =
      (s' : Manager W.State) × (join_gen_id W depth (str device) flag s ≡ (ok id, s'))
      × Found s s' id

  -- One round that ends the search, and one that goes on.
  Search-ends :
      (depth flag : ℕ) (s : Manager W.State) (id : String)
      → decimal (next_flag s flag) <> device ≡ id
      → stored s.db id ≡ false
      → Search (suc depth) flag s id
  Search-ends depth flag s id e absent =
      (tried id s, round depth flag s ∙ rw (e, absent) refl, Found-tried id s)

  Search-goes_on :
      (depth flag : ℕ) (s : Manager W.State) (id new_id : String)
      → decimal (next_flag s flag) <> device ≡ id
      → stored s.db id ≡ true
      → Search depth (next_flag s flag + 4) (tried id s) new_id
      → Search (suc depth) flag s new_id
  Search-goes_on depth flag s id new_id e present (s', p, f) =
      (s', round depth flag s ∙ rw (e, present) p, Found-again id new_id s s' present f)

  Search-first :
      (depth flag k : ℕ) (s : Manager W.State)
      → k < depth
      → FirstFree s flag k
      → Search depth flag s (candidate device flag k)
  Search-first zero flag k s h free = absurd (omega arith)
  Search-first (suc depth) flag k s h free =
      let (j, e, passed) =
        free_flag_steps device (suc (length s.device_cache)) s.device_cache flag in
      let m : ℕ = flag + 4 * j in
      let same : decimal (next_flag s flag) <> device ≡ candidate device flag j =
        ap (λ n. decimal n <> device) e in
      let uncached : contains (candidate device flag j) s.device_cache ≡ false = rw same at (
        contains-free_flag device (suc (length s.device_cache)) s.device_cache flag
          (omega arith)) in
      elim (Bool-cases (stored s.db (candidate device flag j))) [
        | inr absent ↦
            let jk = ends_there s flag k j free uncached absent passed in
            Search-ends depth flag s _ (same ∙ ap (candidate device flag) jk) (rw (← jk) absent)
        | inl present ↦
            let lt = goes_on s flag k j free present passed in
            Search-goes_on depth flag s _ _ same present (
              rw (← shift_back flag _ j k e lt) (
                Search-first depth (next_flag s flag + 4) (k - (j + 1))
                  (tried (candidate device flag j) s) (omega arith)
                  (FirstFree-tried s flag (next_flag s flag) j k e lt free)))
      ]

  pub join_gen_id_first :
      (depth flag k : ℕ) (s : Manager W.State)
      → k < depth
      → taken s (candidate device flag k) ≡ false
      → ((i : ℕ) → i < k → taken s (candidate device flag i) ≡ true)
      → (s' : Manager W.State) × (join_gen_id W depth (str device) flag s
          ≡ (ok (candidate device flag k), s'))
        × Found s s' (candidate device flag k)
  join_gen_id_first depth flag k s h free used = Search-first depth flag k s h (free, used)
