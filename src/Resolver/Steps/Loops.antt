-- ===== src/Resolver/Steps/Loops.antt =====
-- Loops of the handlers of the Flask service, as steps for each of a list.
use mathlib.Core.List.{Forall₂}
use versatile.Base.{ℕ, String, refl, List, [], ◌∷◌, ◌++◌, map}
use versatile.Py.Exec.{pure, traverse}
use versatile.Resolver.{Server, Act, execute}
use versatile.Resolver.Steps.{Step, statement, Runs, Anything, Runs-bind, Runs-keep, Runs-execute}

-- The steps for each of a list, and the number after them.
abbrev pub all_steps : {B : Type 0} → (ℕ → B → List Step) → (ℕ → ℕ) → ℕ → List B → List Step
all_steps steps next n [] = []
all_steps steps next n (b ∷ bs) = steps n b ++ all_steps steps next (next n) bs

abbrev pub after_all : {B : Type 0} → (ℕ → ℕ) → ℕ → List B → ℕ
after_all next n [] = n
after_all next n (b ∷ bs) = after_all next (next n) bs

module _ (V : Server) where
  pub Runs-traverse :
      {A B C : Type 0} {R : A → B → Type 0} (f : A → Act V C) (steps : ℕ → B → List Step)
      (next : ℕ → ℕ)
      → ((n : ℕ) (a : A) (b : B) → R a b → Runs V n (f a) (steps n b) (next n) (Anything V))
      → (n : ℕ) (xs : List A) (bs : List B) → Forall₂ R xs bs
      → Runs V n (traverse f xs) (all_steps steps next n bs) (after_all next n bs) (Anything V)
  unfolding traverse pure
  Runs-traverse f steps next one n [] (b ∷ bs) h = elim h [ ]
  Runs-traverse f steps next one n (x ∷ xs) [] h = elim h [ ]
  Runs-traverse f steps next one n [] [] Forall₂.nil = record { at = λ s h. ([], tt, refl, h) }
  Runs-traverse f steps next one n (x ∷ xs) (b ∷ bs) (Forall₂.cons h hs) =
      Runs-bind V (f x) _ (one n x b h) (λ c _.
        Runs-keep V (traverse f xs) (λ cs. c ∷ cs)
          (Runs-traverse f steps next one (next n) xs bs hs) (λ _ _. tt))

  -- One step for each of a list.
  pub Runs-each :
      {A B C : Type 0} {R : A → B → Type 0} (f : A → Act V C) (step : B → Step) (n : ℕ)
      → ((a : A) (b : B) → R a b → Runs V n (f a) (step b ∷ []) n (Anything V))
      → (xs : List A) (bs : List B) → Forall₂ R xs bs
      → Runs V n (traverse f xs) (map step bs) n (Anything V)
  unfolding traverse pure
  Runs-each f step n one [] (b ∷ bs) h = elim h [ ]
  Runs-each f step n one (x ∷ xs) [] h = elim h [ ]
  Runs-each f step n one [] [] Forall₂.nil = record { at = λ s h. ([], tt, refl, h) }
  Runs-each f step n one (x ∷ xs) (b ∷ bs) (Forall₂.cons h hs) =
      Runs-bind V (f x) _ (one x b h) (λ c _.
        Runs-keep V (traverse f xs) (λ cs. c ∷ cs) (Runs-each f step n one xs bs hs) (λ _ _. tt))

  -- A loop of statements.
  pub Runs-statements :
      {B : Type 0} (query : B → String) (n : ℕ) (bs : List B)
      → Runs V n
          (traverse (λ b. execute V (query b)) bs)
          (map (λ b. statement (query b)) bs)
          n
          (Anything V)
  unfolding traverse pure
  Runs-statements query n [] = record { at = λ s h. ([], tt, refl, h) }
  Runs-statements query n (b ∷ bs) =
      Runs-bind V (execute V (query b)) _ (Runs-execute V n (query b)) (λ c _.
        Runs-keep V (traverse (λ b. execute V (query b)) bs) (λ cs. c ∷ cs)
          (Runs-statements query n bs) (λ _ _. tt))
