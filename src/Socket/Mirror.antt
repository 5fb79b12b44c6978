-- ===== src/Socket/Mirror.antt =====
-- Code that the socketIO service has in common with the Flask service, on the same database.
use mathlib.Core.List.{Forall₂}
use versatile.Base.{◌+◌, String, ◌<>◌, ◌≡◌, refl, Bool, true, false, List, [], ◌∷◌, if◌then◌else◌}
use versatile.Base.Dict.{Dict}
use versatile.Py.Value.{Error, Result, ok, err, Value, str}
use versatile.Py.Exec.{pure, gets, modify, lift, traverse, continue, ◌>>=◌}
use versatile.Resolver.{Server, Resolver}
use versatile.Resolver as Flask
use versatile.Resolver.ServiceId.{four_digits}
use versatile.Resolver.ServiceId.Unique.{
  ServiceType, type_name, front_bit, back_bit, service_id-parts,
}
use versatile.Socket.{Emission, SocketResolver, Act, connect, execute, commit, only_cell}
use versatile.Socket.ServiceId.{gen_service_id}
use versatile.Socket.ServiceId.Agrees.{ids_agree}

module _ (V : Server) (session : Dict String) (emitted : List Emission) where
  -- The state of the socketIO service, for a client with this session and to which this was emitted.
  abbrev pub beside : Resolver V.State → SocketResolver V.State
  beside t = record { manage_num = t.manage_num; db = t.db; session = session; emitted = emitted }

  -- What the two blocks give, and the states then, are related.
  pub record Related {A B : Type 0}
      (R : Result A × SocketResolver V.State → Result B × Resolver V.State → Type 0) (m : Act V A)
      (m' : Flask.Act V B) : Type 0 where
    pub at : (t : Resolver V.State) → R (m (beside t)) (m' t)

  -- The same value or exception, the same number and the same database.
  abbrev pub Same :
      {A : Type 0} → Result A × SocketResolver V.State → Result A × Resolver V.State → Type 0
  Same x y = x ≡ (y.0, beside y.1)

  -- An exception of both blocks ends what follows in both.
  abbrev pub Raises :
      {A B : Type 0}
      → (Result A × SocketResolver V.State → Result B × Resolver V.State → Type 0)
      → Type 0
  Raises R = (e : Error) (t : Resolver V.State) → R (err e, beside t) (err e, t)

  pub Same-Raises : {A : Type 0} → Raises (Same {A = A})
  Same-Raises e t = refl

  pub Same-pure : {A : Type 0} (a : A) → Related Same (pure a) (pure a)
  unfolding pure
  Same-pure a = record { at = λ t. refl }

  pub Same-lift : {A : Type 0} (r : Result A) → Related Same (lift r) (lift r)
  unfolding lift
  Same-lift r = record { at = λ t. refl }

  pub Same-connect : Related Same (connect V) (Flask.connect V)
  unfolding connect Flask.connect
  Same-connect = record { at = λ t. refl }

  pub Same-execute : (query : String) → Related Same (execute V query) (Flask.execute V query)
  unfolding execute Flask.execute
  Same-execute query = record { at = λ t. refl }

  pub Same-commit : Related Same (commit V) (Flask.commit V)
  unfolding commit Flask.commit
  Same-commit = record { at = λ t. refl }

  module _ {A B C : Type 0}
      {R : Result B × SocketResolver V.State → Result C × Resolver V.State → Type 0} where
    pub Related-bind :
        (m : Act V A) (m' : Flask.Act V A) (f : A → Act V B) (f' : A → Flask.Act V C)
        → Raises R
        → Related Same m m'
        → ((a : A) → Related R (f a) (f' a))
        → Related R (m >>= f) (m' >>= f')
    unfolding ◌>>=◌
    Related-bind m m' f f' raises hm hf = record { at = λ t. rw (hm.at t) (next (m' t)) }
      where
        next :
            (y : Result A × Resolver V.State)
            → R (continue y.0 f (beside y.1)) (continue y.0 f' y.1)
        next (ok a, t) = (hf a).at t
        next (err e, t) = raises e t

  pub Same-traverse :
      {A B C : Type 0} {P : A → C → Type 0} (f : A → Act V B) (f' : A → Flask.Act V B)
      → ((a : A) (c : C) → P a c → Related Same (f a) (f' a))
      → (xs : List A) (cs : List C) → Forall₂ P xs cs
      → Related Same (traverse f xs) (traverse f' xs)
  unfolding traverse
  Same-traverse f f' one [] (c ∷ cs) h = elim h [ ]
  Same-traverse f f' one (x ∷ xs) [] h = elim h [ ]
  Same-traverse f f' one [] [] h = Same-pure []
  Same-traverse f f' one (x ∷ xs) (c ∷ cs) (Forall₂.cons h hs) =
      Related-bind _ _ _ _ Same-Raises (one x c h) (λ y.
        Related-bind _ _ _ _ Same-Raises (Same-traverse f f' one xs cs hs)
          (λ ys. Same-pure (y ∷ ys)))

  module _ {A B C D : Type 0}
      {R : Result C × SocketResolver V.State → Result D × Resolver V.State → Type 0} where
    pub Related-bind_left :
        (m : Act V A) (m' : Flask.Act V A) (f : A → Act V B) (g : B → Act V C)
        (f' : A → Flask.Act V D)
        → Raises R
        → Related Same m m'
        → ((a : A) → Related R (f a >>= g) (f' a))
        → Related R ((m >>= f) >>= g) (m' >>= f')
    unfolding ◌>>=◌
    Related-bind_left m m' f g f' raises hm hf = record { at = λ t. rw (hm.at t) (next (m' t)) }
      where
        next :
            (y : Result A × Resolver V.State)
            → R
                (continue (continue y.0 f (beside y.1)).0 g (continue y.0 f (beside y.1)).1)
                (continue y.0 f' y.1)
        next (ok a, t) = (hf a).at t
        next (err e, t) = raises e t

    pub Related-lifts_left :
        (r : Result A) (a : A) (f : A → Act V B) (g : B → Act V C) (f' : A → Flask.Act V D)
        → r ≡ ok a
        → Related R (f a >>= g) (f' a)
        → Related R ((lift r >>= f) >>= g) (lift r >>= f')
    unfolding lift ◌>>=◌
    Related-lifts_left r a f g f' e hf = record { at = λ t. rw e (hf.at t) }

  module _ {A B C : Type 0}
      {R : Result B × SocketResolver V.State → Result C × Resolver V.State → Type 0} where
    pub Related-reads :
        (r : Result A) (a : A) (f : A → Act V B) (m' : Flask.Act V C)
        → r ≡ ok a
        → Related R (f a) m'
        → Related R (lift r >>= f) m'
    unfolding lift ◌>>=◌
    Related-reads r a f m' e hf = record { at = λ t. rw e (hf.at t) }

    pub Related-lifts :
        (r : Result A) (a : A) (f : A → Act V B) (f' : A → Flask.Act V C)
        → r ≡ ok a
        → Related R (f a) (f' a)
        → Related R (lift r >>= f) (lift r >>= f')
    unfolding lift ◌>>=◌
    Related-lifts r a f f' e hf = record { at = λ t. rw e (hf.at t) }

  module _ {B C : Type 0}
      {R : Result B × SocketResolver V.State → Result C × Resolver V.State → Type 0} where
    pub Related-if :
        (b : Bool) (m n : Act V B) (m' n' : Flask.Act V C)
        → Related R m m'
        → Related R n n'
        → Related R (if b then m else n) (if b then m' else n')
    Related-if true m n m' n' hm hn = hm
    Related-if false m n m' n' hm hn = hn

    -- A service of a type that both have gets the same text.
    pub Related-gen_service_id :
        (k : ServiceType) (f : Value → Act V B) (f' : Value → Flask.Act V C)
        → ((id : String) → Related R (f (str id)) (f' (str id)))
        → Related R
            (gen_service_id V (str (type_name k)) >>= f)
            (Flask.ServiceId.gen_service_id V (str (type_name k)) >>= f')
    unfolding gen_service_id Flask.ServiceId.gen_service_id lift pure gets modify ◌>>=◌
    Related-gen_service_id k f f' h = record {
      at = λ t.
          let digits = four_digits (t.manage_num + 1) in
          let id = front_bit k <> digits <> back_bit k in
          let made = service_id-parts k digits in
          rw (made, ids_agree (str (type_name k)) digits id made)
            ((h id).at (record t { manage_num = t.manage_num + 1 }));
    }

  pub Same-only_cell :
      (rows : List Value) → Related Same (only_cell V rows) (Flask.only_cell V rows)
  unfolding only_cell Flask.only_cell
  Same-only_cell rows = Related-bind _ _ _ _ Same-Raises (Same-lift _) (λ row. Same-lift _)

  -- A loop over the values of a message, and one over what they describe.
  pub Same-each :
      {A B C : Type 0} {P : A → C → Type 0} (f : A → Act V B) (g : C → Flask.Act V B)
      → ((a : A) (c : C) → P a c → Related Same (f a) (g c))
      → (xs : List A) (cs : List C) → Forall₂ P xs cs
      → Related Same (traverse f xs) (traverse g cs)
  unfolding traverse
  Same-each f g one [] (c ∷ cs) h = elim h [ ]
  Same-each f g one (x ∷ xs) [] h = elim h [ ]
  Same-each f g one [] [] h = Same-pure []
  Same-each f g one (x ∷ xs) (c ∷ cs) (Forall₂.cons h hs) =
      Related-bind _ _ _ _ Same-Raises (one x c h) (λ y.
        Related-bind _ _ _ _ Same-Raises (Same-each f g one xs cs hs) (λ ys. Same-pure (y ∷ ys)))
