-- ===== src/Py/Exec/Fails.antt =====
-- Blocks that raise from every state.
use versatile.Base.{◌≡◌, refl, Bool, true, false, if◌then◌else◌, List, ◌∷◌}
use versatile.Py.Value.{Error, Result, ok, err}
use versatile.Py.Exec.{Exec, raise, lift, traverse, continue, ◌>>=◌}

pub record Fails {S A : Type 0} (m : Exec S A) : Type 0 where
  pub at : (s : S) → (e : Error) × ((m s).0 ≡ err e)

module _ {S A : Type 0} where
  pub Fails-raise : (e : Error) → Fails (raise {S = S} {A = A} e)
  unfolding raise
  Fails-raise e = record { at = λ s. (e, refl) }

  pub Fails-lift : (r : Result A) (e : Error) → r ≡ err e → Fails (lift {S = S} r)
  unfolding lift
  Fails-lift r e h = record { at = λ s. (e, h) }

  pub Fails-if : (b : Bool) (m n : Exec S A) → Fails m → Fails n → Fails (if b then m else n)
  Fails-if true m n fm fn = fm
  Fails-if false m n fm fn = fn

module _ {S A B : Type 0} where
  continue-Fails :
      (r : Result A) (f : A → Exec S B) (s : S)
      → ((a : A) → Fails (f a))
      → (e : Error) × ((continue r f s).0 ≡ err e)
  continue-Fails (ok a) f s ff = (ff a).at s
  continue-Fails (err e) f s ff = (e, refl)

  continue_failed :
      (r : Result A) (f : A → Exec S B) (s : S) (e : Error)
      → r ≡ err e
      → (e' : Error) × ((continue r f s).0 ≡ err e')
  continue_failed (ok a) f s e h = cc
  continue_failed (err e) f s e' h = (e, refl)

  -- A block fails if what follows its first statement does, whatever the statement returns,
  pub Fails-rest : (m : Exec S A) (f : A → Exec S B) → ((a : A) → Fails (f a)) → Fails (m >>= f)
  unfolding ◌>>=◌
  Fails-rest m f ff = record { at = λ s. let (r, s') = m s in continue-Fails r f s' ff }

  -- or if the first statement does,
  pub Fails-first : (m : Exec S A) (f : A → Exec S B) → Fails m → Fails (m >>= f)
  unfolding ◌>>=◌
  Fails-first m f fm = record {
    at = λ s. let (e, h) = fm.at s in continue_failed (m s).0 f (m s).1 e h;
  }

  -- or if what follows fails at the value of an expression that does not raise.
  pub Fails-ok : (a : A) (f : A → Exec S B) → Fails (f a) → Fails (lift (ok a) >>= f)
  unfolding ◌>>=◌
  Fails-ok a f ff = record { at = ff.at }

pub Fails-traverse :
    {S A B : Type 0} (f : A → Exec S B) (x : A) (xs : List A)
    → Fails (f x)
    → Fails (traverse f (x ∷ xs))
unfolding traverse
Fails-traverse f x xs h = Fails-first (f x) _ h
