-- ===== src/Broker/Database.antt =====
-- `send_DBquery`, and what the handlers do with the reply.
pub mod Ids
pub mod Free
use Prim.Native.String.{String, [], ◌∷◌}
use Prim.Native.Char.{Char}
use versatile.Base.{
  ◌≡◌, refl, ℕ, zero, suc, ◌/◌, ◌%◌, ◌<>◌, Bool, Option, none, some, true, nat_eq, if◌then◌else◌,
}
use versatile.Base.Dict.{lookup, insert, erase, contains}
use versatile.Base.Decimal.{digit}
use versatile.Py.Value.{key_error, failure, Result, ok, err, Value, str, truthy, is_zero, get}
use versatile.Broker.Proc.{
  Proc, Globals, ret, fail, read, write, publish_db, draw, wait, lift, ◌>>=◌, ◌>>◌,
}

abbrev pub db_insert : String
db_insert = "/dbquery/insert/flexMnger"

abbrev pub db_select : String
db_select = "/dbquery/select/flexMnger"

abbrev pub db_delete : String
db_delete = "/dbquery/delete/flexMnger"

abbrev pub db_update : String
db_update = "/dbquery/update/flexMnger"

hex_digit : ℕ → Char
hex_digit d =
    if nat_eq d 10
    then "a"
    else if nat_eq d 11
    then "b"
    else if nat_eq d 12
    then "c"
    else if nat_eq d 13
    then "d"
    else if nat_eq d 14
    then "e"
    else if nat_eq d 15
    then "f"
    else digit d

-- The last `k` hexadecimal digits of `n`, in front of `out`.
hex : ℕ → ℕ → String → String
unfolding hex_digit
hex zero n out = out
hex (suc k) n out = hex k (n / 16) (hex_digit (n % 16) ∷ out)

-- '0x' and the eight digits of four random bytes, as the number that they are.
unfoldable pub query_id : ℕ → String
unfolding hex
query_id n = "0x" <> hex 8 n []

unfoldable pub send_db_query : Value → String → Bool → Proc String
send_db_query query topic waiting = draw (λ id.
    write (λ s. record s { query_cache = insert id (str "None") s.query_cache })
      (publish_db (topic <> "/" <> id) query (
        if waiting
        then wait id (λ present. if present then ret id else fail key_error)
        else ret id)))

abbrev or_key_error : Option Value → Result Value
or_key_error none = err key_error
or_key_error (some v) = ok v

-- `dbQuery_cache[id]`
unfoldable pub entry : String → Proc Value
entry id = read (λ s. lift (or_key_error (lookup id s.query_cache)))

-- `del dbQuery_cache[id]`
unfoldable pub forget_query : String → Proc Unit
forget_query id = read (λ s.
    if contains id s.query_cache
    then write (λ s. record s { query_cache = erase id s.query_cache }) (ret tt)
    else fail key_error)

-- A query whose reply has rows under 'data'; its entry is deleted.
unfoldable pub select_rows : Value → Proc Value
unfolding send_db_query entry forget_query
select_rows query = do
  id ← send_db_query query db_select true
  payload ← entry id
  exist ← lift (get payload "data")
  forget_query id
  ret exist

-- `if db_error is not 0: raise Exception(text)`
unfoldable pub require_zero : Value → String → Proc Unit
require_zero db_error text = if is_zero db_error then ret tt else fail (failure text)

-- `if exist is '' or not exist: raise Exception(text)`
unfoldable pub require_some : Value → String → Proc Unit
require_some exist text = if truthy exist then ret tt else fail (failure text)

-- A statement whose reply has an error code: it returns the ID of its entry.
unfoldable pub change_rows : Value → String → String → Proc String
unfolding send_db_query entry require_zero
change_rows query topic text = do
  id ← send_db_query query topic true
  payload ← entry id
  db_error ← lift (get payload "error")
  require_zero db_error text
  ret id

query_id_test : query_id 0xdeadbe9f ≡ "0xdeadbe9f"
unfolding query_id digit
query_id_test = refl
