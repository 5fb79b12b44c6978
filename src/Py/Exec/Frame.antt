-- ===== src/Py/Exec/Frame.antt =====
-- What every statement of a block leaves related, for a relation of the states before and after
-- that is reflexive and transitive. One rule for each way to build a block.
use versatile.Base.{Bool, true, false, if◌then◌else◌, List, [], ◌∷◌}
use versatile.Py.Value.{Error, Result, ok, err}
use versatile.Py.Exec.{Exec, pure, raise, lift, gets, modify, continue, traverse, ◌>>=◌}

-- `m` relates the state before it to the state after it, whether it returns or raises.
pub record Keeps {S A : Type 0} (R : S → S → Type 0) (m : Exec S A) : Type 0 where
  pub at : (s : S) → R s (m s).1

pub record IsPreorder {S : Type 0} (R : S → S → Type 0) : Type 0 where
  pub same : (s : S) → R s s
  pub chain : (s t u : S) → R s t → R t u → R s u

module _ {S : Type 0} {R : S → S → Type 0} (o : IsPreorder R) where
  module _ {A : Type 0} where
    pub Keeps-pure : (a : A) → Keeps R (pure a)
    unfolding pure
    Keeps-pure a = record { at = o.same }

    pub Keeps-raise : (e : Error) → Keeps R (raise {A = A} e)
    unfolding raise
    Keeps-raise e = record { at = o.same }

    pub Keeps-lift : (r : Result A) → Keeps R (lift r)
    unfolding lift
    Keeps-lift r = record { at = o.same }

    pub Keeps-gets : (f : S → A) → Keeps R (gets f)
    unfolding gets
    Keeps-gets f = record { at = o.same }

  module _ {A B : Type 0} where
    pub Keeps-bind :
        (m : Exec S A) (f : A → Exec S B)
        → Keeps R m
        → ((a : A) → Keeps R (f a))
        → Keeps R (m >>= f)
    unfolding ◌>>=◌
    Keeps-bind m f km kf = record { at = λ s. let (r, s') = m s in go s r s' (km.at s) }
      where
        go : (s : S) (r : Result A) (s' : S) → R s s' → R s (continue r f s').1
        go s (ok a) s' h = o.chain s s' _ h ((kf a).at s')
        go s (err e) s' h = h

  pub Keeps-traverse :
      {A B : Type 0} (f : A → Exec S B) (xs : List A)
      → ((x : A) → Keeps R (f x))
      → Keeps R (traverse f xs)
  unfolding traverse
  Keeps-traverse f [] kf = Keeps-pure []
  Keeps-traverse f (x ∷ xs) kf =
      Keeps-bind (f x) _ (kf x)
        (λ y. Keeps-bind (traverse f xs) _ (Keeps-traverse f xs kf) (λ ys. Keeps-pure (y ∷ ys)))

module _ {S A : Type 0} {R : S → S → Type 0} where
  pub Keeps-if : (b : Bool) (m n : Exec S A) → Keeps R m → Keeps R n → Keeps R (if b then m else n)
  Keeps-if true m n km kn = km
  Keeps-if false m n km kn = kn

pub Keeps-modify :
    {S : Type 0} {R : S → S → Type 0} (f : S → S) → ((s : S) → R s (f s)) → Keeps R (modify f)
unfolding modify
Keeps-modify f h = record { at = h }

pub ruleset keeps_rules =
    (Keeps-pure, Keeps-raise, Keeps-lift, Keeps-gets, Keeps-bind, Keeps-if, Keeps-traverse)
