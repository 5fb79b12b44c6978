-- ===== src/Broker/Paths.antt =====
-- What every path through a handler does, whatever it reads, draws and waits for.
use versatile.Base.{ℕ, String, ◌≡◌, Bool, true, false, if◌then◌else◌, List, [], ◌∷◌}
use versatile.Base.Chars.{has_char}
use versatile.Py.Value.{Error, Result, ok, err, Value}
use versatile.Broker.Proc.{
  Proc, Globals, ret, fail, read, write, publish, publish_db, draw, wait, lift, attempt, traverse,
  ◌>>=◌,
}
use versatile.Broker.Database.{query_id}

-- A topic level can be read back only if it has no slash.
abbrev pub IsLevel : String → Type 0
IsLevel id = has_char b'/' id ≡ false

-- Nothing is published to the clients, and the IDs that are waited for are levels of a topic.
pub data Quiet {A : Type 0} : Proc A → Type 0 where
  quiet_ret : (a : A) → Quiet (ret a)
  quiet_fail : (e : Error) → Quiet (fail e)
  quiet_read : (f : Globals → Proc A) → ((s : Globals) → Quiet (f s)) → Quiet (read f)
  quiet_write : (g : Globals → Globals) (p : Proc A) → Quiet p → Quiet (write g p)
  quiet_publish_db :
      (topic : String) (m : Value) (p : Proc A) → Quiet p → Quiet (publish_db topic m p)
  quiet_draw : (f : String → Proc A) → ((n : ℕ) → Quiet (f (query_id n))) → Quiet (draw f)
  quiet_wait :
      (id : String) (f : Bool → Proc A)
      → IsLevel id
      → ((b : Bool) → Quiet (f b))
      → Quiet (wait id f)

-- Exactly one message is published, and it satisfies `P`; then the handler returns.
pub data Answers (P : String → Value → Type 0) : Proc Unit → Type 0 where
  answer_read : (f : Globals → Proc Unit) → ((s : Globals) → Answers P (f s)) → Answers P (read f)
  answer_write : (g : Globals → Globals) (p : Proc Unit) → Answers P p → Answers P (write g p)
  answer_publish : (topic : String) (m : Value) → P topic m → Answers P (publish topic m (ret tt))
  answer_publish_db :
      (topic : String) (m : Value) (p : Proc Unit) → Answers P p → Answers P (publish_db topic m p)
  answer_draw :
      (f : String → Proc Unit) → ((n : ℕ) → Answers P (f (query_id n))) → Answers P (draw f)
  answer_wait :
      (id : String) (f : Bool → Proc Unit)
      → IsLevel id
      → ((b : Bool) → Answers P (f b))
      → Answers P (wait id f)

module _ {A B : Type 0} where
  pub Quiet-bind :
      (p : Proc A) (k : A → Proc B) → Quiet p → ((a : A) → Quiet (k a)) → Quiet (p >>= k)
  unfolding ◌>>=◌
  Quiet-bind (ret a) k (quiet_ret _) h = h a
  Quiet-bind (fail e) k (quiet_fail _) h = quiet_fail e
  Quiet-bind (read f) k (quiet_read _ q) h = quiet_read _ (λ s. Quiet-bind (f s) k (q s) h)
  Quiet-bind (write g p) k (quiet_write _ _ q) h = quiet_write _ _ (Quiet-bind p k q h)
  Quiet-bind (publish topic m p) k q h = elim q [ ]
  Quiet-bind (publish_db topic m p) k (quiet_publish_db _ _ _ q) h =
      quiet_publish_db _ _ _ (Quiet-bind p k q h)
  Quiet-bind (draw f) k (quiet_draw _ q) h =
      quiet_draw _ (λ n. Quiet-bind (f (query_id n)) k (q n) h)
  Quiet-bind (wait id f) k (quiet_wait _ _ level q) h =
      quiet_wait _ _ level (λ b. Quiet-bind (f b) k (q b) h)

module _ {A : Type 0} {P : String → Value → Type 0} where
  pub Answers-attempt :
      (p : Proc A) (handler : Error → Proc Unit) (k : A → Proc Unit)
      → Quiet p
      → ((e : Error) → Answers P (handler e))
      → ((a : A) → Answers P (k a))
      → Answers P (attempt p handler k)
  unfolding attempt
  Answers-attempt (ret a) handler k (quiet_ret _) he hk = hk a
  Answers-attempt (fail e) handler k (quiet_fail _) he hk = he e
  Answers-attempt (read f) handler k (quiet_read _ q) he hk =
      answer_read _ (λ s. Answers-attempt (f s) handler k (q s) he hk)
  Answers-attempt (write g p) handler k (quiet_write _ _ q) he hk =
      answer_write _ _ (Answers-attempt p handler k q he hk)
  Answers-attempt (publish topic m p) handler k q he hk = elim q [ ]
  Answers-attempt (publish_db topic m p) handler k (quiet_publish_db _ _ _ q) he hk =
      answer_publish_db _ _ _ (Answers-attempt p handler k q he hk)
  Answers-attempt (draw f) handler k (quiet_draw _ q) he hk =
      answer_draw _ (λ n. Answers-attempt (f (query_id n)) handler k (q n) he hk)
  Answers-attempt (wait id f) handler k (quiet_wait _ _ level q) he hk =
      answer_wait _ _ level (λ b. Answers-attempt (f b) handler k (q b) he hk)

module _ {A : Type 0} where
  pub Quiet-lift : (r : Result A) → Quiet (lift r)
  Quiet-lift (ok a) = quiet_ret a
  Quiet-lift (err e) = quiet_fail e

  pub Quiet-if : (b : Bool) (p q : Proc A) → Quiet p → Quiet q → Quiet (if b then p else q)
  Quiet-if true p q hp hq = hp
  Quiet-if false p q hp hq = hq

pub Quiet-traverse :
    {A B : Type 0} (f : A → Proc B) (xs : List A) → ((x : A) → Quiet (f x)) → Quiet (traverse f xs)
unfolding traverse
Quiet-traverse f [] h = quiet_ret []
Quiet-traverse f (x ∷ xs) h =
    Quiet-bind (f x) _ (h x)
      (λ y. Quiet-bind (traverse f xs) _ (Quiet-traverse f xs h) (λ ys. quiet_ret (y ∷ ys)))

pub ruleset quiet_rules = (
  quiet_ret, quiet_fail, quiet_read, quiet_write, quiet_publish_db, quiet_draw, quiet_wait,
  Quiet-bind, Quiet-lift, Quiet-if, Quiet-traverse,
)
