-- ===== src/Py/Exec/Post.antt =====
-- What holds when a block returns: of its value alone, and of its value and the state, from what
-- holds of the state before it.
use versatile.Base.{◌≡◌, refl, Bool, true, false, if◌then◌else◌}
use versatile.Py.Value.{Error, Result, ok, err}
use versatile.Py.Exec.{Exec, pure, raise, lift, gets, continue, ◌>>=◌}
use versatile.Py.Exec.Frame.{Keeps}

-- Every value that `m` returns satisfies `P`.
pub record Returns {S A : Type 0} (P : A → Type 0) (m : Exec S A) : Type 0 where
  pub at : (s : S) (a : A) → (m s).0 ≡ ok a → P a

-- From a state with `P`, where `m` returns, the value and the state after it satisfy `Q`.
pub record Post {S A : Type 0} (P : S → Type 0) (m : Exec S A) (Q : A → S → Type 0) : Type 0 where
  pub at : (s : S) → P s → (a : A) → (m s).0 ≡ ok a → Q a (m s).1

module _ {S A : Type 0} {P : A → Type 0} where
  pub Returns-pure : (a : A) → P a → Returns {S = S} P (pure a)
  unfolding pure
  Returns-pure a p = record { at = λ s b h. let e : a ≡ b = cc in rw (← e) p }

  pub Returns-raise : (e : Error) → Returns {S = S} P (raise e)
  unfolding raise
  Returns-raise e = record { at = λ s b h. cc }

  pub Returns-if :
      (b : Bool) (m n : Exec S A) → Returns P m → Returns P n → Returns P (if b then m else n)
  Returns-if true m n hm hn = hm
  Returns-if false m n hm hn = hn

pub Returns-bind :
    {S A B : Type 0} {P : B → Type 0} (m : Exec S A) (f : A → Exec S B)
    → ((a : A) → Returns P (f a))
    → Returns P (m >>= f)
unfolding ◌>>=◌
Returns-bind {S} {A} {B} {P} m f hf = record { at = λ s b h. let (r, s') = m s in last r s' b h }
  where
    last : (r : Result A) (s' : S) (b : B) → (continue r f s').0 ≡ ok b → P b
    last (ok a) s' b h = (hf a).at s' b h
    last (err e) s' b h = cc

pub ruleset returns_rules = (Returns-pure, Returns-raise, Returns-if, Returns-bind)

module _ {S A : Type 0} {P : S → Type 0} where
  pub Post-pure : {Q : A → S → Type 0} (a : A) → ((s : S) → P s → Q a s) → Post P (pure a) Q
  unfolding pure
  Post-pure {Q} a h = record { at = λ s p b e. let same : a ≡ b = cc in rw (← same) (h s p) }

  pub Post-raise : {Q : A → S → Type 0} (e : Error) → Post P (raise e) Q
  unfolding raise
  Post-raise {Q} e = record { at = λ s p b h. cc }

  pub Post-returns : {Q : A → Type 0} (m : Exec S A) → Returns Q m → Post P m (λ a s. Q a)
  Post-returns m k = record { at = λ s p. k.at s }

  pub Post-lift : (r : Result A) → Post P (lift r) (λ a s. P s)
  unfolding lift
  Post-lift r = record { at = λ s p b e. p }

  pub Post-gets : {Q : A → S → Type 0} (f : S → A) → ((s : S) → P s → Q (f s) s) → Post P (gets f) Q
  unfolding gets
  Post-gets {Q} f h = record { at = λ s p b e. let same : f s ≡ b = cc in rw (← same) (h s p) }

  -- A block that keeps a relation keeps what the relation carries over.
  pub Post-keeps :
      {R : S → S → Type 0} {Q : S → Type 0} (m : Exec S A)
      → Keeps R m
      → ((s s' : S) → R s s' → P s → Q s')
      → Post P m (λ a. Q)
  Post-keeps m k h = record { at = λ s p a e. h s _ (k.at s) p }

  pub Post-if :
      {Q : A → S → Type 0} (b : Bool) (m n : Exec S A)
      → Post P m Q
      → Post P n Q
      → Post P (if b then m else n) Q
  Post-if true m n hm hn = hm
  Post-if false m n hm hn = hn

  pub Post-weaken :
      {P' : S → Type 0} {Q : A → S → Type 0} (m : Exec S A)
      → Post P' m Q
      → ((s : S) → P s → P' s)
      → Post P m Q
  Post-weaken m k h = record { at = λ s p. k.at s (h s p) }

  pub Post-both :
      {Q Q' : A → S → Type 0} (m : Exec S A)
      → Post P m Q
      → Post P m Q'
      → Post P m (λ a s. Q a s × Q' a s)
  Post-both m one other = record { at = λ s p a e. (one.at s p a e, other.at s p a e) }

pub Post-bind :
    {S A B : Type 0} {P : S → Type 0} {Q : B → S → Type 0} (M : A → S → Type 0) (m : Exec S A)
    (f : A → Exec S B)
    → Post P m M
    → ((a : A) → Post (M a) (f a) Q)
    → Post P (m >>= f) Q
unfolding ◌>>=◌
Post-bind {S} {A} {B} {P} {Q} M m f hm hf = record {
  at = λ s p b h. let (r, s') = m s in rest r s' (hm.at s p) b h;
}
  where
    rest :
        (r : Result A) (s' : S)
        → ((a : A) → r ≡ ok a → M a s')
        → (b : B) → (continue r f s').0 ≡ ok b
        → Q b (continue r f s').1
    rest (ok a) s' mid b h = (hf a).at s' (mid a refl) b h
    rest (err e) s' mid b h = cc
