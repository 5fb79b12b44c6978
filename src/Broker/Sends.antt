-- ===== src/Broker/Sends.antt =====
-- What a path through a handler publishes to the clients, beside the topics of the queries that it
-- has sent to the database before.
use versatile.Base.{ℕ, String, Bool, true, false, if◌then◌else◌, List, [], ◌∷◌, ◌<>◌}
use versatile.Py.Value.{Error, key_error, Result, ok, err, Value}
use versatile.Broker.Proc.{
  Proc, Globals, ret, fail, read, write, publish, publish_db, draw, wait, lift, attempt, traverse,
  ◌>>=◌,
}
use versatile.Broker.Database.{query_id, send_db_query}
use versatile.Broker.Database.Ids.{query_id-IsLevel}
use versatile.Broker.Paths.{
  IsLevel, Answers, answer_read, answer_write, answer_publish, answer_publish_db, answer_draw,
  answer_wait,
}

-- Nothing is published and no ID is drawn or waited for.
pub data Local {A : Type 0} : Proc A → Type 0 where
  local_ret : (a : A) → Local (ret a)
  local_fail : (e : Error) → Local (fail e)
  local_read : (f : Globals → Proc A) → ((s : Globals) → Local (f s)) → Local (read f)
  local_write : (g : Globals → Globals) (p : Proc A) → Local p → Local (write g p)

-- Exactly one message is published, which satisfies `P` with the topics of the queries sent until
-- then, the last one first; then the handler returns.
pub data Sends (P : List String → String → Value → Type 0) : List String → Proc Unit → Type 0 where
  sends_read :
      (sent : List String) (f : Globals → Proc Unit)
      → ((s : Globals) → Sends P sent (f s))
      → Sends P sent (read f)
  sends_write :
      (sent : List String) (g : Globals → Globals) (p : Proc Unit)
      → Sends P sent p
      → Sends P sent (write g p)
  sends_publish :
      (sent : List String) (topic : String) (m : Value)
      → P sent topic m
      → Sends P sent (publish topic m (ret tt))
  sends_publish_db :
      (sent : List String) (topic : String) (m : Value) (p : Proc Unit)
      → Sends P (topic ∷ sent) p
      → Sends P sent (publish_db topic m p)
  sends_draw :
      (sent : List String) (f : String → Proc Unit)
      → ((n : ℕ) → Sends P sent (f (query_id n)))
      → Sends P sent (draw f)
  sends_wait :
      (sent : List String) (id : String) (f : Bool → Proc Unit)
      → IsLevel id
      → ((b : Bool) → Sends P sent (f b))
      → Sends P sent (wait id f)

module _ {A B : Type 0} where
  pub Local-bind :
      (p : Proc A) (k : A → Proc B) → Local p → ((a : A) → Local (k a)) → Local (p >>= k)
  unfolding ◌>>=◌
  Local-bind (ret a) k (local_ret _) h = h a
  Local-bind (fail e) k (local_fail _) h = local_fail e
  Local-bind (read f) k (local_read _ q) h = local_read _ (λ s. Local-bind (f s) k (q s) h)
  Local-bind (write g p) k (local_write _ _ q) h = local_write _ _ (Local-bind p k q h)
  Local-bind (publish topic m p) k q h = elim q [ ]
  Local-bind (publish_db topic m p) k q h = elim q [ ]
  Local-bind (draw f) k q h = elim q [ ]
  Local-bind (wait id f) k q h = elim q [ ]

module _ {A : Type 0} where
  pub Local-lift : (r : Result A) → Local (lift r)
  Local-lift (ok a) = local_ret a
  Local-lift (err e) = local_fail e

  pub Local-if : (b : Bool) (p q : Proc A) → Local p → Local q → Local (if b then p else q)
  Local-if true p q hp hq = hp
  Local-if false p q hp hq = hq

pub Local-traverse :
    {A B : Type 0} (f : A → Proc B) (xs : List A) → ((x : A) → Local (f x)) → Local (traverse f xs)
unfolding traverse
Local-traverse f [] h = local_ret []
Local-traverse f (x ∷ xs) h =
    Local-bind (f x) _ (h x)
      (λ y. Local-bind (traverse f xs) _ (Local-traverse f xs h) (λ ys. local_ret (y ∷ ys)))

pub ruleset local_rules = (
  local_ret, local_fail, local_read, local_write, Local-bind, Local-lift, Local-if, Local-traverse,
)

module _ {P : List String → String → Value → Type 0} where
  -- Local work under a `try`.
  pub Sends-attempt :
      {A : Type 0} (sent : List String) (p : Proc A) (handler : Error → Proc Unit)
      (k : A → Proc Unit)
      → Local p
      → ((e : Error) → Sends P sent (handler e))
      → ((a : A) → Sends P sent (k a))
      → Sends P sent (attempt p handler k)
  unfolding attempt
  Sends-attempt sent (ret a) handler k (local_ret _) he hk = hk a
  Sends-attempt sent (fail e) handler k (local_fail _) he hk = he e
  Sends-attempt sent (read f) handler k (local_read _ q) he hk =
      sends_read _ _ (λ s. Sends-attempt sent (f s) handler k (q s) he hk)
  Sends-attempt sent (write g p) handler k (local_write _ _ q) he hk =
      sends_write _ _ _ (Sends-attempt sent p handler k q he hk)
  Sends-attempt sent (publish topic m p) handler k q he hk = elim q [ ]
  Sends-attempt sent (publish_db topic m p) handler k q he hk = elim q [ ]
  Sends-attempt sent (draw f) handler k q he hk = elim q [ ]
  Sends-attempt sent (wait id f) handler k q he hk = elim q [ ]

  -- What follows a query to the database gets the ID that was drawn for it and sent in its topic.
  pub Sends-send :
      (sent : List String) (query : Value) (topic : String) (handler : Error → Proc Unit)
      (k : String → Proc Unit)
      → ((id : String) (e : Error) → Sends P ((topic <> "/" <> id) ∷ sent) (handler e))
      → ((id : String) → Sends P ((topic <> "/" <> id) ∷ sent) (k id))
      → Sends P sent (attempt (send_db_query query topic true) handler k)
  unfolding send_db_query attempt
  Sends-send sent query topic handler k he hk = sends_draw _ _ λ n.
      sends_write _ _ _ (
        sends_publish_db _ _ _ _ (sends_wait _ _ _ (query_id-IsLevel n) (λ b. both b (query_id n))))
    where
      both :
          (b : Bool) (id : String)
          → Sends P
              ((topic <> "/" <> id) ∷ sent)
              (attempt (if b then ret id else fail key_error) handler k)
      both true id = hk id
      both false id = he id key_error

  pub Sends-if :
      (sent : List String) (b : Bool) (p q : Proc Unit)
      → Sends P sent p
      → Sends P sent q
      → Sends P sent (if b then p else q)
  Sends-if sent true p q hp hq = hp
  Sends-if sent false p q hp hq = hq

  -- The queries are forgotten.
  pub Sends-Answers :
      {Q : String → Value → Type 0} {sent : List String} (p : Proc Unit)
      → ((sent : List String) (topic : String) (m : Value) → P sent topic m → Q topic m)
      → Sends P sent p
      → Answers Q p
  Sends-Answers _ h (sends_read _ f a) = answer_read f (λ s. Sends-Answers (f s) h (a s))
  Sends-Answers _ h (sends_write _ g p a) = answer_write g p (Sends-Answers p h a)
  Sends-Answers _ h (sends_publish sent topic m pm) = answer_publish topic m (h sent topic m pm)
  Sends-Answers _ h (sends_publish_db _ topic m p a) =
      answer_publish_db topic m p (Sends-Answers p h a)
  Sends-Answers _ h (sends_draw _ f a) = answer_draw f (λ n. Sends-Answers (f (query_id n)) h (a n))
  Sends-Answers _ h (sends_wait _ id f level a) =
      answer_wait id f level (λ b. Sends-Answers (f b) h (a b))
