-- ===== src/Resolver/Steps.antt =====
-- What a handler of the Flask service does behind its queries: statements, commits, and the numbers
-- that it takes for new services, as a list of steps.
pub mod Loops
use mathlib.Core.Path.{subst}
use mathlib.Core.List.{Forall₂}
use versatile.Base.{
  ℕ, ◌+◌, String, ◌≡◌, refl, sym, ap, ◌∙◌, Bool, true, false, Option, none, some, List, [], ◌∷◌,
  ◌++◌, map, if◌then◌else◌,
}
use versatile.Py.Value.{Error, database_error, Result, ok, err, Value}
use versatile.Py.Exec.{pure, lift, traverse, try_except, continue, handle, ◌>>=◌}
use versatile.Resolver.{Server, Resolver, Act, execute, commit, done, rows_or_error}
use versatile.Resolver.ServiceId.{gen_service_id, service_id, four_digits}

pub data Step : Type 0 where
  -- a statement whose rows are not used
  statement : String → Step
  -- a new number for a service
  count : Step
  -- the commit
  save : Step

module _ (V : Server) where
  abbrev found : Option (List Value) → Bool
  found none = false
  found (some rows) = true

  abbrev either_way :
      Bool × V.State
      → Resolver V.State
      → (Resolver V.State → Bool × Resolver V.State)
      → Bool × Resolver V.State
  either_way (true, db) s rest = rest (record s { db = db })
  either_way (false, db) s rest = (false, record s { db = db })

  -- The steps in order, up to the first that fails: whether none did, and the state then.
  abbrev pub perform : List Step → Resolver V.State → Bool × Resolver V.State
  perform [] s = (true, s)
  perform (count ∷ steps) s = perform steps (record s { manage_num = s.manage_num + 1 })
  perform (statement query ∷ steps) s =
      let (rows, db) = V.execute query s.db in either_way (found rows, db) s (perform steps)
  perform (save ∷ steps) s = either_way (V.commit s.db) s (perform steps)

  -- From `n` as the number of the last service, what the block does and returns if the steps are
  -- performed, or where they stop.
  abbrev pub Ran :
      {A : Type 0}
      → ℕ
      → (A → Type 0)
      → Bool × Resolver V.State
      → Result A × Resolver V.State
      → Type 0
  Ran {A} n Q (true, s') r = (a : A) × Q a × (r ≡ (ok a, s')) × (s'.manage_num ≡ n)
  Ran {A} n Q (false, s') r = r ≡ (err database_error, s')

  pub record Runs {A : Type 0} (n : ℕ) (m : Act V A) (steps : List Step) (n' : ℕ) (Q : A → Type 0)
      : Type 0 where
    pub at : (s : Resolver V.State) → s.manage_num ≡ n → Ran n' Q (perform steps s) (m s)

  abbrev pub Anything : {A : Type 0} → A → Type 0
  Anything a = Unit

  pub Runs-pure : {A : Type 0} (n : ℕ) (a : A) → Runs n (pure a) [] n (λ b. b ≡ a)
  unfolding pure
  Runs-pure n a = record { at = λ s h. (a, refl, refl, h) }

  -- A run whose value is not needed.
  pub Runs-forget :
      {A : Type 0} {Q : A → Type 0} {n n' : ℕ} {steps : List Step} {m : Act V A}
      → Runs n m steps n' Q
      → Runs n m steps n' Anything
  Runs-forget {A} {Q} {n} {n'} {steps} {m} hm = record {
    at = λ s h. forget (perform steps s) (m s) (hm.at s h);
  }
    where
      forget :
          (out : Bool × Resolver V.State) (r : Result A × Resolver V.State)
          → Ran n' Q out r
          → Ran n' Anything out r
      forget (true, s') r (a, q, same, h) = (a, tt, same, h)
      forget (false, s') r same = same

  pub Runs-lift :
      {A : Type 0} (n : ℕ) (r : Result A) (a : A) → r ≡ ok a → Runs n (lift r) [] n (λ b. b ≡ a)
  unfolding lift
  Runs-lift n r a e = record { at = λ s h. (a, refl, ap (λ x. (x, s)) e, h) }

  pub Runs-count :
      (n : ℕ) (service : Value)
      → Runs n
          (gen_service_id V service)
          (count ∷ [])
          (n + 1)
          (λ v. v ≡ service_id service (four_digits (n + 1)))
  unfolding gen_service_id ◌>>=◌
  Runs-count n service = record { at = λ s h. (_, rw h refl, refl, rw h refl) }

  pub Runs-execute :
      (n : ℕ) (query : String) → Runs n (execute V query) (statement query ∷ []) n Anything
  unfolding execute
  Runs-execute n query = record { at = λ s h. by_rows s h (V.execute query s.db) }
    where
      by_rows :
          (s : Resolver V.State)
          → s.manage_num ≡ n
          → (out : Option (List Value) × V.State)
          → Ran n Anything
              (either_way (found out.0, out.1) s (perform []))
              (rows_or_error V out.0, record s { db = out.1 })
      by_rows s h (none, db) = refl
      by_rows s h (some rows, db) = (rows, tt, refl, h)

  pub Runs-commit : (n : ℕ) → Runs n (commit V) (save ∷ []) n Anything
  unfolding commit
  Runs-commit n = record { at = λ s h. by_done s h (V.commit s.db) }
    where
      by_done :
          (s : Resolver V.State)
          → s.manage_num ≡ n
          → (out : Bool × V.State)
          → Ran n Anything (either_way out s (perform [])) (done V out.0, record s { db = out.1 })
      by_done s h (true, db) = (tt, tt, refl, h)
      by_done s h (false, db) = refl

  abbrev then_perform : Bool × Resolver V.State → List Step → Bool × Resolver V.State
  then_perform (true, s) steps = perform steps s
  then_perform (false, s) steps = (false, s)

  either_way-then :
      (steps more : List Step) (s : Resolver V.State)
      → ((t : Resolver V.State) → perform (steps ++ more) t ≡ then_perform (perform steps t) more)
      → (out : Bool × V.State)
      → either_way out s (perform (steps ++ more))
        ≡ then_perform (either_way out s (perform steps)) more
  either_way-then steps more s rest (true, db) = rest (record s { db = db })
  either_way-then steps more s rest (false, db) = refl

  perform-append :
      (steps more : List Step) (s : Resolver V.State)
      → perform (steps ++ more) s ≡ then_perform (perform steps s) more
  perform-append [] more s = refl
  perform-append (count ∷ steps) more s =
      perform-append steps more (record s { manage_num = s.manage_num + 1 })
  perform-append (statement query ∷ steps) more s =
      let (rows, db) = V.execute query s.db in
      either_way-then steps more s (perform-append steps more) (found rows, db)
  perform-append (save ∷ steps) more s =
      either_way-then steps more s (perform-append steps more) (V.commit s.db)

  pub Runs-bind :
      {A B : Type 0} {Q : A → Type 0} {Q' : B → Type 0} {n n1 n2 : ℕ} {steps more : List Step}
      (m : Act V A) (f : A → Act V B)
      → Runs n m steps n1 Q
      → ((a : A) → Q a → Runs n1 (f a) more n2 Q')
      → Runs n (m >>= f) (steps ++ more) n2 Q'
  unfolding ◌>>=◌
  Runs-bind {A} {B} {Q} {Q'} {n} {n1} {n2} {steps} {more} m f hm hf = record {
    at = λ s h.
        subst (λ x. Ran n2 Q' x (continue (m s).0 f (m s).1)) (sym (perform-append steps more s))
          (next (perform steps s) (m s) (hm.at s h));
  }
    where
      next :
          (out : Bool × Resolver V.State) (r : Result A × Resolver V.State)
          → Ran n1 Q out r
          → Ran n2 Q' (then_perform out more) (continue r.0 f r.1)
      next (true, s') r (a, q, same, h) =
          subst (λ x. Ran n2 Q' (perform more s') (continue x.0 f x.1)) (sym same)
            ((hf a q).at s' h)
      next (false, s') r same =
          subst (λ x. Ran n2 Q' (false, s') (continue x.0 f x.1)) (sym same) refl

  -- A block that gives `a` and changes nothing, before another.
  pub Runs-reads :
      {A B : Type 0} {Q : B → Type 0} {n n' : ℕ} {steps : List Step} (m : Act V A) (a : A)
      (f : A → Act V B)
      → ((s : Resolver V.State) → m s ≡ (ok a, s))
      → Runs n (f a) steps n' Q
      → Runs n (m >>= f) steps n' Q
  unfolding ◌>>=◌
  Runs-reads m a f reads hf = record { at = λ s h. rw (reads s) (hf.at s h) }

  pub Runs-lifts :
      {A B : Type 0} {Q : B → Type 0} {n n' : ℕ} {steps : List Step} (r : Result A) (a : A)
      (f : A → Act V B)
      → r ≡ ok a
      → Runs n (f a) steps n' Q
      → Runs n (lift r >>= f) steps n' Q
  unfolding lift
  Runs-lifts r a f e hf = Runs-reads (lift r) a f (λ s. ap (λ x. (x, s)) e) hf

  -- A value that is only kept.
  pub Runs-keep :
      {A B : Type 0} {Q : A → Type 0} {Q' : B → Type 0} {n n' : ℕ} {steps : List Step} (m : Act V A)
      (f : A → B)
      → Runs n m steps n' Q
      → ((a : A) → Q a → Q' (f a))
      → Runs n (m >>= λ a. pure (f a)) steps n' Q'
  unfolding ◌>>=◌ pure
  Runs-keep {A} {B} {Q} {Q'} {n} {n'} {steps} m f hm good = record {
    at = λ s h. next (perform steps s) (m s) (hm.at s h);
  }
    where
      next :
          (out : Bool × Resolver V.State) (r : Result A × Resolver V.State)
          → Ran n' Q out r
          → Ran n' Q' out (continue r.0 (λ a s. (ok (f a), s)) r.1)
      next (true, s') r (a, q, same, h) = (
        f a,
        good a q,
        ap (λ (x : Result A × Resolver V.State). continue x.0 (λ a s. (ok (f a), s)) x.1) same,
        h,
      )
      next (false, s') r same =
          ap (λ (x : Result A × Resolver V.State). continue x.0 (λ a s. (ok (f a), s)) x.1) same

  -- The reply of a handler whose block is such a run.
  pub Runs-reply :
      {A : Type 0} {n n' : ℕ} {steps : List Step} (m : Act V A) (reply : A) (handler : Error → A)
      (s : Resolver V.State)
      → Runs n m steps n' (λ a. a ≡ reply)
      → s.manage_num ≡ n
      → let (all, s') = perform steps s in
        try_except m (λ e. pure (handler e)) s
        ≡ (ok (if all then reply else handler database_error), s')
  unfolding try_except pure
  Runs-reply {A} {n} {n'} {steps} m reply handler s hm h = go (perform steps s) (m s) (hm.at s h)
    where
      go :
          (out : Bool × Resolver V.State) (r : Result A × Resolver V.State)
          → Ran n' (λ a. a ≡ reply) out r
          → handle r.0 (λ e. pure (handler e)) r.1
            ≡ (ok (if out.0 then reply else handler database_error), out.1)
      go (true, s') r (a, q, same, h) =
          ap (λ (x : Result A × Resolver V.State). handle x.0 (λ e. pure (handler e)) x.1) same
          ∙ ap (λ a. (ok a, s')) q
      go (false, s') r same =
          ap (λ (x : Result A × Resolver V.State). handle x.0 (λ e. pure (handler e)) x.1) same
