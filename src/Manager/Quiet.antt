-- ===== src/Manager/Quiet.antt =====
-- What the work of a handler does to the globals up to its reply: `Quiet` says that nothing is
-- published and that no device leaves the cache.
use versatile.Base.{ℕ, zero, suc, String, ◌≡◌, refl, ◌∙◌, true, List, arith}
use versatile.Base.Dict.{contains, insert, contains-insert}
use versatile.Py.Value.{Value}
use versatile.Py.Exec.Frame.{Keeps, IsPreorder, Keeps-modify, keeps_rules}
use versatile.World.{World}
use versatile.Manager.{Manager, execute, commit, cache_device, is_cached}
use versatile.Manager.Database.{insert_row, insert_rows, select_rows, db_proc, send_db_query}
use versatile.Manager.GenId.{join_gen_id, register_gen_id}
use versatile.Manager.Device.{require_zero, require_some, require_device}
use versatile.Manager.Join.{device_row, neighbor_row, join_insert, join_rows, join_work}
use versatile.Manager.Register.{item_id, register_item, register_work}
use versatile.Manager.Update.{deregister, change_attributes, update_work}
use versatile.Manager.Query.{read_requirement, query_work}

module _ (W : World) where
  pub record Quiet (s s' : Manager W.State) : Type 0 where
    pub same_published : s'.published ≡ s.published
    pub grows :
        (id : String) → contains id s.device_cache ≡ true → contains id s'.device_cache ≡ true

  pub Quiet-preorder : IsPreorder Quiet
  Quiet-preorder = record {
    same = λ s. record { same_published = refl; grows = λ id h. h };
    chain = λ s t u p q. record {
      same_published = q.same_published ∙ p.same_published;
      grows = λ id h. q.grows id (p.grows id h);
    };
  }

  execute-Quiet : (query : String) → Keeps Quiet (execute W query)
  unfolding execute
  execute-Quiet query = record { at = λ s. record { same_published = refl; grows = λ id h. h } }

  commit-Quiet : Keeps Quiet (commit W)
  unfolding commit
  commit-Quiet = record { at = λ s. record { same_published = refl; grows = λ id h. h } }

  pub cache_device-Quiet : (id : String) (v : Value) → Keeps Quiet (cache_device W id v)
  unfolding cache_device
  cache_device-Quiet id v =
      Keeps-modify (λ s. record s { device_cache = insert id v s.device_cache })
        (λ s. record {
          same_published = refl;
          grows = λ j h. ground (arith, contains-insert id j v s.device_cache);
        })

  ruleset plain_rules =
      (keeps_rules, Quiet-preorder, execute-Quiet, commit-Quiet, cache_device-Quiet)

  insert_row-Quiet : (table : String) (row : Value) → Keeps Quiet (insert_row W table row)
  unfolding insert_row
  insert_row-Quiet table row = search plain_rules depth 40

  insert_rows-Quiet : (request : Value) → Keeps Quiet (insert_rows W request)
  unfolding insert_rows
  insert_rows-Quiet request = search (plain_rules, insert_row-Quiet) depth 40

  select_rows-Quiet : (request : Value) → Keeps Quiet (select_rows W request)
  unfolding select_rows
  select_rows-Quiet request = search plain_rules depth 40

  pub db_proc-Quiet : (topic : String) (request : Value) → Keeps Quiet (db_proc W topic request)
  unfolding db_proc
  db_proc-Quiet topic request = search (plain_rules, insert_rows-Quiet, select_rows-Quiet) depth 40

  send_db_query-Quiet :
      (request : Value) (topic : String) → Keeps Quiet (send_db_query W request topic true)
  unfolding send_db_query
  send_db_query-Quiet request topic = db_proc-Quiet topic request

  ruleset database_rules = (plain_rules, db_proc-Quiet, send_db_query-Quiet)

  join_gen_id-Quiet :
      (depth : ℕ) (device_id : Value) (flag : ℕ) → Keeps Quiet (join_gen_id W depth device_id flag)
  unfolding join_gen_id
  join_gen_id-Quiet zero device_id flag = search plain_rules depth 40
  join_gen_id-Quiet (suc depth) device_id flag =
      search (database_rules, join_gen_id-Quiet depth device_id) depth 40

  register_gen_id-Quiet :
      (depth : ℕ) (hash_val : Value) (flag : ℕ)
      → Keeps Quiet (register_gen_id W depth hash_val flag)
  unfolding register_gen_id
  register_gen_id-Quiet zero hash_val flag = search plain_rules depth 40
  register_gen_id-Quiet (suc depth) hash_val flag =
      search (database_rules, register_gen_id-Quiet depth hash_val) depth 40

  require_zero-Quiet : (v : Value) (text : String) → Keeps Quiet (require_zero W v text)
  unfolding require_zero
  require_zero-Quiet v text = search plain_rules depth 40

  require_some-Quiet : (v : Value) (text : String) → Keeps Quiet (require_some W v text)
  unfolding require_some
  require_some-Quiet v text = search plain_rules depth 40

  is_cached-Quiet : (id : String) → Keeps Quiet (is_cached W id)
  unfolding is_cached
  is_cached-Quiet id = search plain_rules depth 40

  ruleset device_rules = (database_rules, require_zero-Quiet, require_some-Quiet, is_cached-Quiet)

  require_device-Quiet : (device : String) → Keeps Quiet (require_device W device)
  unfolding require_device
  require_device-Quiet device = search device_rules depth 40

  device_row-Quiet :
      (id : String) (relay pub_key code : Value) → Keeps Quiet (device_row W id relay pub_key code)
  unfolding device_row
  device_row-Quiet id relay pub_key code = search plain_rules depth 40

  neighbor_row-Quiet : (id : String) (neighbor : Value) → Keeps Quiet (neighbor_row W id neighbor)
  unfolding neighbor_row
  neighbor_row-Quiet id neighbor = search plain_rules depth 40

  join_insert-Quiet : (table : String) (rows : List Value) → Keeps Quiet (join_insert W table rows)
  unfolding join_insert
  join_insert-Quiet table rows = search device_rules depth 40

  pub join_rows-Quiet :
      (payload relay : Value) (id : String) → Keeps Quiet (join_rows W payload relay id)
  unfolding join_rows
  join_rows-Quiet payload relay id =
      search (plain_rules, device_row-Quiet, neighbor_row-Quiet, join_insert-Quiet) depth 40

  pub join_work-Quiet :
      (temp_id : String) (payload relay : Value) → Keeps Quiet (join_work W temp_id payload relay)
  unfolding join_work
  join_work-Quiet temp_id payload relay =
      search (plain_rules, join_gen_id-Quiet, join_rows-Quiet) depth 40

  item_id-Quiet : (avoid hash_val : Value) (flag : ℕ) → Keeps Quiet (item_id W avoid hash_val flag)
  unfolding item_id
  item_id-Quiet avoid hash_val flag = search (plain_rules, register_gen_id-Quiet) depth 40

  register_item-Quiet : (device : String) (item : Value) → Keeps Quiet (register_item W device item)
  unfolding register_item
  register_item-Quiet device item = search (plain_rules, item_id-Quiet) depth 40

  pub register_work-Quiet :
      (temp_id : String) (payload relay register_id : Value)
      → Keeps Quiet (register_work W temp_id payload relay register_id)
  unfolding register_work
  register_work-Quiet temp_id payload relay register_id =
      search (device_rules, require_device-Quiet, register_item-Quiet) depth 40

  deregister-Quiet : (id : Value) → Keeps Quiet (deregister W id)
  unfolding deregister
  deregister-Quiet id = search device_rules depth 40

  change_attributes-Quiet : (payload id : Value) → Keeps Quiet (change_attributes W payload id)
  unfolding change_attributes
  change_attributes-Quiet payload id = search device_rules depth 40

  pub update_work-Quiet :
      (temp_id : String) (payload relay update_id : Value)
      → Keeps Quiet (update_work W temp_id payload relay update_id)
  unfolding update_work
  update_work-Quiet temp_id payload relay update_id =
      search (device_rules, require_device-Quiet, deregister-Quiet, change_attributes-Quiet) depth
        40

  read_requirement-Quiet : (req : Value) → Keeps Quiet (read_requirement W req)
  unfolding read_requirement
  read_requirement-Quiet req = search plain_rules depth 40

  pub query_work-Quiet :
      (temp_id : String) (payload relay query_id : Value)
      → Keeps Quiet (query_work W temp_id payload relay query_id)
  unfolding query_work
  query_work-Quiet temp_id payload relay query_id =
      search (device_rules, require_device-Quiet, read_requirement-Quiet) depth 40
