-- ===== src/Manager/GenId/Providing.antt =====
-- The search of `register_genID`: by the database alone.
use versatile.Base.{
  ℕ, zero, suc, ◌+◌, ◌<◌, ◌≤◌, String, ◌<>◌, ◌≡◌, refl, ◌∙◌, Bool, true, false, arith, ltb, ◌⊎◌,
  inl, inr, if◌then◌else◌,
}
use versatile.Base.Decimal.{decimal}
use versatile.Py.Value.{ok, err, recursion_error, str, get, find, as_text}
use versatile.Py.Exec.{raise, ◌>>=◌}
use versatile.World.{World}
use versatile.Manager.{Manager}
use versatile.Manager.Database.{send_db_query}
use versatile.Manager.Database.Lookup.{IsLookup, IsPlain, IsPlain-decimal, db_proc-id_query}
use versatile.Manager.GenId.{register_gen_id}
use versatile.Manager.GenId.FreeFlag.{candidate, candidate-zero, candidate-suc}

ltb_of_lt : (k n : ℕ) → k < n → ltb k n ≡ true
ltb_of_lt k n h = ground arith

ltb_self : (n : ℕ) → ltb n n ≡ false
ltb_self n = ground arith

module _ (W : World) {stored : W.State → String → Bool}
    (look : IsLookup W "RegisterList" "providingId" stored) (hash : String) (plain : IsPlain hash)
    (s : Manager W.State) where
  round :
      (depth flag : ℕ)
      → register_gen_id W (suc depth) (str hash) flag s ≡ (
          if stored s.db (candidate hash flag 0)
          then register_gen_id W depth (str hash) (flag + 4) s
          else (ok (candidate hash flag 0), s))
  unfolding register_gen_id send_db_query get find as_text ◌>>=◌
  round depth flag = rw candidate-zero (
      ground (
        arith,
        db_proc-id_query W "RegisterList" "providingId" (decimal flag <> hash) look s refl
            (IsPlain-decimal flag hash plain),
        look.found s.db (decimal flag <> hash),
      ))

  -- If the `k`-th ID is the first that the database does not have, and `k` calls fit into the
  -- depth, that ID is found, and nothing changes.
  register_gen_id_first :
      (depth flag k : ℕ)
      → k < depth
      → stored s.db (candidate hash flag k) ≡ false
      → ((i : ℕ) → i < k → stored s.db (candidate hash flag i) ≡ true)
      → register_gen_id W depth (str hash) flag s ≡ (ok (candidate hash flag k), s)
  register_gen_id_first zero flag k h free used = absurd (omega arith)
  register_gen_id_first (suc depth) flag zero h free used = round depth flag ∙ rw free refl
  register_gen_id_first (suc depth) flag (suc k) h free used =
      round depth flag
      ∙ rw (used 0 (omega arith), ← candidate-suc hash flag k)
          (register_gen_id_first depth (flag + 4) k (omega arith) (rw candidate-suc free)
            (λ i lt. rw candidate-suc (used (suc i) (omega arith))))

  -- If the database has every ID that the depth lets the search try, it raises RecursionError.
  register_gen_id_exhausted :
      (depth flag : ℕ)
      → ((i : ℕ) → i < depth → stored s.db (candidate hash flag i) ≡ true)
      → register_gen_id W depth (str hash) flag s ≡ (err recursion_error, s)
  unfolding register_gen_id raise
  register_gen_id_exhausted zero flag used = refl
  register_gen_id_exhausted (suc depth) flag used =
      round depth flag
      ∙ rw (used 0 (omega arith)) (
          register_gen_id_exhausted depth (flag + 4)
            (λ i lt. rw candidate-suc (used (suc i) (omega arith))))

  reached_or_not : (k depth : ℕ) → k ≤ depth → (k < depth) ⊎ (k ≡ depth)
  reached_or_not k depth h = grind arith

  -- For a hash without quote and backslash, in a database whose SELECT by an ID is a lookup for
  -- such IDs: if the table has the first k IDs, and not the one after them if the call depth lets
  -- the search try it, register_genID returns that one, or raises RecursionError where the call
  -- depth is k; in both cases nothing changes.
  pub register_gen_id_lem :
      (depth flag k : ℕ)
      → k ≤ depth
      → ((i : ℕ) → i < k → stored s.db (candidate hash flag i) ≡ true)
      → (k < depth → stored s.db (candidate hash flag k) ≡ false)
      → register_gen_id W depth (str hash) flag s
        ≡ (if ltb k depth then ok (candidate hash flag k) else err recursion_error, s)
  register_gen_id_lem depth flag k h used free = elim (reached_or_not k depth h) [
    | inl lt ↦ rw (ltb_of_lt k depth lt) (register_gen_id_first depth flag k lt (free lt) used)
    | inr e ↦
        rw (e, ltb_self depth) (register_gen_id_exhausted depth flag (λ i lt. used i (omega arith)))
  ]
