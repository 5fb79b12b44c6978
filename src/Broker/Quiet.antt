-- ===== src/Broker/Quiet.antt =====
-- The work of the handlers, whose reply is left to the `try` around it.
use versatile.Base.{ℕ, zero, suc, String, true, List, [], ◌∷◌}
use versatile.Py.Value.{Value}
use versatile.Broker.Database.{
  send_db_query, entry, forget_query, select_rows, change_rows, require_zero, require_some,
}
use versatile.Broker.Database.Ids.{query_id-IsLevel}
use versatile.Broker.Paths.{Quiet, quiet_ret, quiet_rules, Quiet-bind}
use versatile.Broker.GenId.{cache_device, join_gen_id, register_gen_id}
use versatile.Broker.Device.{sender, is_cached, require_device}
use versatile.Broker.Join.{device_row, neighbor_row, join_insert, join_rows, join_work}
use versatile.Broker.Leave.{forget_device, leave_work}
use versatile.Broker.Register.{Batch, item_id, register_item, register_items, register_work}
use versatile.Broker.Update.{deregister, change_attributes, update_work}

pub send_db_query-Quiet : (query : Value) (topic : String) → Quiet (send_db_query query topic true)
unfolding send_db_query
send_db_query-Quiet query topic = search (quiet_rules, query_id-IsLevel) depth 12

entry-Quiet : (id : String) → Quiet (entry id)
unfolding entry
entry-Quiet id = search quiet_rules depth 8

forget_query-Quiet : (id : String) → Quiet (forget_query id)
unfolding forget_query
forget_query-Quiet id = search quiet_rules depth 8

require_zero-Quiet : (v : Value) (text : String) → Quiet (require_zero v text)
unfolding require_zero
require_zero-Quiet v text = search quiet_rules depth 8

require_some-Quiet : (v : Value) (text : String) → Quiet (require_some v text)
unfolding require_some
require_some-Quiet v text = search quiet_rules depth 8

ruleset query_rules = (
  quiet_rules, send_db_query-Quiet, entry-Quiet, forget_query-Quiet, require_zero-Quiet,
  require_some-Quiet,
)

select_rows-Quiet : (query : Value) → Quiet (select_rows query)
unfolding select_rows
select_rows-Quiet query = search query_rules depth 20

change_rows-Quiet : (query : Value) (topic text : String) → Quiet (change_rows query topic text)
unfolding change_rows
change_rows-Quiet query topic text = search query_rules depth 20

cache_device-Quiet : (id : String) (v : Value) → Quiet (cache_device id v)
unfolding cache_device
cache_device-Quiet id v = search quiet_rules depth 8

is_cached-Quiet : (id : String) → Quiet (is_cached id)
unfolding is_cached
is_cached-Quiet id = search quiet_rules depth 8

pub sender-Quiet : (temp_id : String) (relay : Value) → Quiet (sender temp_id relay)
unfolding sender
sender-Quiet temp_id relay = search quiet_rules depth 8

ruleset device_rules = (
  query_rules, select_rows-Quiet, change_rows-Quiet, cache_device-Quiet, is_cached-Quiet,
  sender-Quiet,
)

require_device-Quiet : (device : String) → Quiet (require_device device)
unfolding require_device
require_device-Quiet device = search device_rules depth 20

join_gen_id-Quiet : (depth : ℕ) (device : String) (flag : ℕ) → Quiet (join_gen_id depth device flag)
unfolding join_gen_id
join_gen_id-Quiet zero device flag = search quiet_rules depth 8
join_gen_id-Quiet (suc depth) device flag =
    search (device_rules, join_gen_id-Quiet depth device) depth 20

register_gen_id-Quiet :
    (depth : ℕ) (hash_val : String) (flag : ℕ) → Quiet (register_gen_id depth hash_val flag)
unfolding register_gen_id
register_gen_id-Quiet zero hash_val flag = search quiet_rules depth 8
register_gen_id-Quiet (suc depth) hash_val flag =
    search (device_rules, register_gen_id-Quiet depth hash_val) depth 20

device_row-Quiet :
    (id : String) (relay pub_key code : Value) → Quiet (device_row id relay pub_key code)
unfolding device_row
device_row-Quiet id relay pub_key code = search quiet_rules depth 40

neighbor_row-Quiet : (id : String) (neighbor : Value) → Quiet (neighbor_row id neighbor)
unfolding neighbor_row
neighbor_row-Quiet id neighbor = search quiet_rules depth 40

join_insert-Quiet : (table : String) (rows : List Value) → Quiet (join_insert table rows)
unfolding join_insert
join_insert-Quiet table rows = search device_rules depth 20

join_rows-Quiet : (payload relay : Value) (id : String) → Quiet (join_rows payload relay id)
unfolding join_rows
join_rows-Quiet payload relay id =
    search (quiet_rules, device_row-Quiet, neighbor_row-Quiet, join_insert-Quiet) depth 40

pub join_work-Quiet :
    (call_depth : ℕ) (temp_id : String) (payload relay : Value)
    → Quiet (join_work call_depth temp_id payload relay)
unfolding join_work
join_work-Quiet call_depth temp_id payload relay =
    search (device_rules, join_gen_id-Quiet, join_rows-Quiet) depth 20

forget_device-Quiet : (id : String) → Quiet (forget_device id)
unfolding forget_device
forget_device-Quiet id = search quiet_rules depth 8

pub leave_work-Quiet : (temp_id : String) (relay : Value) → Quiet (leave_work temp_id relay)
unfolding leave_work
leave_work-Quiet temp_id relay = search (device_rules, forget_device-Quiet) depth 20

item_id-Quiet :
    (call_depth : ℕ) (avoid hash_val : Value) (flag : ℕ)
    → Quiet (item_id call_depth avoid hash_val flag)
unfolding item_id
item_id-Quiet call_depth avoid hash_val flag = search (quiet_rules, register_gen_id-Quiet) depth 20

register_item-Quiet :
    (call_depth : ℕ) (device : String) (batch : Batch) (item : Value)
    → Quiet (register_item call_depth device batch item)
unfolding register_item
register_item-Quiet call_depth device batch item = search (quiet_rules, item_id-Quiet) depth 40

register_items-Quiet :
    (call_depth : ℕ) (device : String) (batch : Batch) (items : List Value)
    → Quiet (register_items call_depth device batch items)
unfolding register_items
register_items-Quiet call_depth device batch [] = quiet_ret batch
register_items-Quiet call_depth device batch (item ∷ items) =
    Quiet-bind _ _ (register_item-Quiet call_depth device batch item)
      (λ b. register_items-Quiet call_depth device b items)

pub register_work-Quiet :
    (call_depth : ℕ) (temp_id : String) (payload relay register_id : Value)
    → Quiet (register_work call_depth temp_id payload relay register_id)
unfolding register_work
register_work-Quiet call_depth temp_id payload relay register_id =
    search (device_rules, require_device-Quiet, register_items-Quiet) depth 40

deregister-Quiet : (id : Value) → Quiet (deregister id)
unfolding deregister
deregister-Quiet id = search device_rules depth 20

change_attributes-Quiet : (payload id : Value) → Quiet (change_attributes payload id)
unfolding change_attributes
change_attributes-Quiet payload id = search device_rules depth 20

pub update_work-Quiet :
    (temp_id : String) (payload relay update_id : Value)
    → Quiet (update_work temp_id payload relay update_id)
unfolding update_work
update_work-Quiet temp_id payload relay update_id =
    search (device_rules, require_device-Quiet, deregister-Quiet, change_attributes-Quiet) depth 40
