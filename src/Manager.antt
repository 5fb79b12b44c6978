-- ===== src/Manager.antt =====
-- resolver/2017/flexIDMnger_db.py: the globals of the flex ID manager with a local database, and
-- the statements that touch them. The functions of the file are in the modules below.
pub mod Database
pub mod GenId
pub mod Device
pub mod Join
pub mod Leave
pub mod Register
pub mod Update
pub mod Query
pub mod Dispatch
pub mod Quiet
pub mod Answers
use versatile.Base.{String, Bool, true, false, Option, none, some, List, [], ◌∷◌, ◌++◌}
use versatile.Base.Dict.{Dict, contains, insert}
use versatile.Py.Value.{Error, database_error, Result, ok, err, Value, dict, Fields, end, field}
use versatile.Py.Exec.{Exec, gets, modify}
use versatile.World.{World}

-- A dict display, `{k: v, …}`, of distinct keys.
abbrev pub fields : List (String × Value) → Fields
fields [] = end
fields ((k, v) ∷ kvs) = field k v (fields kvs)

abbrev pub dict_of : List (String × Value) → Value
dict_of kvs = dict (fields kvs)

-- The globals: `deviceID_cache`, `dbQuery_cache`, the connection `db` with `cursor`, and of
-- `client` the messages that it has published, in order, and its subscriptions.
pub record Manager (S : Type 0) : Type 0 where
  pub device_cache : Dict Value
  pub query_cache : Dict Value
  pub db : S
  pub published : List (String × Value)
  pub subscribed : List String

module _ (W : World) where
  abbrev pub Act : Type 0 → Type 0
  Act A = Exec (Manager W.State) A

  abbrev or_database_error : {A : Type 0} → Option A → Result A
  or_database_error none = err database_error
  or_database_error (some a) = ok a

  -- `cursor.execute(query)`, with what `cursor.fetchall()` returns after it
  unfoldable pub execute : String → Act (List Value)
  execute query s =
      let (rows, db) = W.execute query s.db in (or_database_error rows, record s { db = db })

  abbrev committed : Bool → Result Unit
  committed true = ok tt
  committed false = err database_error

  -- `db.commit()`
  unfoldable pub commit : Act Unit
  commit s = let (done, db) = W.commit s.db in (committed done, record s { db = db })

  -- `client.publish(topic, json.dumps(message))`
  unfoldable pub publish : String → Value → Act Unit
  publish topic message s = (ok tt, record s { published = s.published ++ (topic, message) ∷ [] })

  -- `client.subscribe(topic)`
  unfoldable pub subscribe : String → Act Unit
  subscribe topic s = (ok tt, record s { subscribed = s.subscribed ++ topic ∷ [] })

  -- `deviceID_cache[id] = v`
  unfoldable pub cache_device : String → Value → Act Unit
  unfolding modify
  cache_device id v = modify (λ s. record s { device_cache = insert id v s.device_cache })

  -- `id in deviceID_cache`
  unfoldable pub is_cached : String → Act Bool
  unfolding gets
  is_cached id = gets (λ s. contains id s.device_cache)
