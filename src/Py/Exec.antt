-- ===== src/Py/Exec.antt =====
-- Statements that change global state and may raise. What was written before an exception stays
-- written, so the state comes back beside the error too.
pub mod Frame
pub mod Fails
pub mod Post
use versatile.Base.{List, [], ◌∷◌}
use versatile.Py.Value.{Error, Result, ok, err}

abbrev pub Exec : Type 0 → Type 0 → Type 0
Exec S A = S → Result A × S

module _ {S A : Type 0} where
  unfoldable pub pure : A → Exec S A
  pure a s = (ok a, s)

  unfoldable pub raise : Error → Exec S A
  raise e s = (err e, s)

  -- an expression that may raise and changes nothing
  unfoldable pub lift : Result A → Exec S A
  lift r s = (r, s)

  -- reads of the state
  unfoldable pub gets : (S → A) → Exec S A
  gets f s = (ok (f s), s)

  abbrev pub handle : Result A → (Error → Exec S A) → Exec S A
  handle (ok a) handler s = (ok a, s)
  handle (err e) handler s = handler e s

  -- `try: body` with `except Exception as e: handler`
  unfoldable pub try_except : Exec S A → (Error → Exec S A) → Exec S A
  try_except body handler s = let (r, s') = body s in handle r handler s'

unfoldable pub modify : {S : Type 0} → (S → S) → Exec S Unit
modify f s = (ok tt, f s)

module _ {S A B : Type 0} where
  abbrev pub continue : Result A → (A → Exec S B) → Exec S B
  continue (ok a) f s = f a s
  continue (err e) f s = (err e, s)

  infixl 5 ◌>>=◌ ◌>>◌
  -- opening this opens the plain statements too
  unfoldable pub ◌>>=◌ : Exec S A → (A → Exec S B) → Exec S B
  unfolding pure raise lift gets modify
  ◌>>=◌ m f s = let (r, s') = m s in continue r f s'

  abbrev pub ◌>>◌ : Exec S A → Exec S B → Exec S B
  m >> n = m >>= λ _. n

-- `for x in xs:` with the values that the rounds append to a list
unfoldable pub traverse : {S A B : Type 0} → (A → Exec S B) → List A → Exec S (List B)
traverse f [] = pure []
traverse f (x ∷ xs) = do y ← f x; ys ← traverse f xs; pure (y ∷ ys)
