-- ===== src/Broker/Proc.antt =====
-- The statements of the client's thread, one command for each access to what the threads share.
use versatile.Base.{String, Bool, List, [], ◌∷◌}
use versatile.Base.Dict.{Dict}
use versatile.Py.Value.{Error, Result, ok, err, Value}

-- `deviceID_cache` and `dbQuery_cache`. The keys of the first that are no texts, which only `query`
-- writes and reads, stand in a list of their own.
pub record Globals : Type 0 where
  pub device_cache : Dict Value
  pub other_devices : List Value
  pub query_cache : Dict Value

pub data Proc (A : Type 0) : Type 0 where
  ret : A → Proc A
  fail : Error → Proc A
  -- reads of the globals
  read : (Globals → Proc A) → Proc A
  -- an assignment to one of them, or a `del`
  write : (Globals → Globals) → Proc A → Proc A
  -- `client.publish(topic, json.dumps(message))`
  publish : String → Value → Proc A → Proc A
  -- `db_client.publish(topic, query)`
  publish_db : String → Value → Proc A → Proc A
  -- the loop that draws an ID until it is no key of `dbQuery_cache`
  draw : (String → Proc A) → Proc A
  -- the loop that waits while the entry of an ID is "None"; `false` if there is no entry
  wait : String → (Bool → Proc A) → Proc A

module _ {A B : Type 0} where
  infixl 5 ◌>>=◌ ◌>>◌
  unfoldable pub ◌>>=◌ : Proc A → (A → Proc B) → Proc B
  ret a >>= k = k a
  fail e >>= k = fail e
  read f >>= k = read (λ s. f s >>= k)
  write g p >>= k = write g (p >>= k)
  publish topic m p >>= k = publish topic m (p >>= k)
  publish_db topic m p >>= k = publish_db topic m (p >>= k)
  draw f >>= k = draw (λ id. f id >>= k)
  wait id f >>= k = wait id (λ b. f b >>= k)

  abbrev pub ◌>>◌ : Proc A → Proc B → Proc B
  m >> n = m >>= λ _. n

  -- A `try` whose handler and whose rest are both given.
  unfoldable pub attempt : Proc A → (Error → Proc B) → (A → Proc B) → Proc B
  attempt (ret a) handler k = k a
  attempt (fail e) handler k = handler e
  attempt (read f) handler k = read (λ s. attempt (f s) handler k)
  attempt (write g p) handler k = write g (attempt p handler k)
  attempt (publish topic m p) handler k = publish topic m (attempt p handler k)
  attempt (publish_db topic m p) handler k = publish_db topic m (attempt p handler k)
  attempt (draw f) handler k = draw (λ id. attempt (f id) handler k)
  attempt (wait id f) handler k = wait id (λ b. attempt (f b) handler k)

-- an expression that may raise
abbrev pub lift : {A : Type 0} → Result A → Proc A
lift (ok a) = ret a
lift (err e) = fail e

-- `for x in xs:` with the values that the rounds append to a list
unfoldable pub traverse : {A B : Type 0} → (A → Proc B) → List A → Proc (List B)
traverse f [] = ret []
traverse f (x ∷ xs) = do y ← f x; ys ← traverse f xs; ret (y ∷ ys)
