-- ===== src/Tests/Sample.antt =====
-- A database that holds fixed rows: its state is the list of the SELECT statements that find a
-- row. It accepts every statement, and changes nothing.
use versatile.Base.{
  String, ◌≡◌, refl, Bool, true, false, ◌||◌, some, List, [], ◌∷◌, ◌==◌, if◌then◌else◌,
}
use versatile.Py.Value.{Value, str, list_of, truthy}
use versatile.World.{World}
use versatile.Manager.{Manager, dict_of}
use versatile.Manager.Database.Lookup.{IsLookup, lookup_statement}

abbrev pub is_among : String → List String → Bool
is_among query [] = false
is_among query (q ∷ qs) = q == query || is_among query qs

abbrev pub rows_for : String → List String → List Value
rows_for query db = if is_among query db then dict_of (("deviceId", str "x") ∷ []) ∷ [] else []

abbrev pub sample : World
sample = record {
  State = List String;
  execute = λ query db. (some (rows_for query db), db);
  commit = λ db. (true, db);
  call_depth = 20;
  printable = λ n. true;
}

abbrev pub held : String → String → List String → String → Bool
held table column db id = is_among (lookup_statement table column id) db

found_lem : (b : Bool) (v : Value) → truthy (list_of (if b then v ∷ [] else [])) ≡ b
unfolding truthy
found_lem true v = refl
found_lem false v = refl

pub sample-IsLookup : (table column : String) → IsLookup sample table column (held table column)
sample-IsLookup table column = record {
  rows = λ db id. rows_for (lookup_statement table column id) db;
  select = λ db id plain. refl;
  found = λ db id. found_lem (is_among (lookup_statement table column id) db) _;
}

abbrev pub start : List String → Manager (List String)
start db = record { device_cache = []; query_cache = []; db = db; published = []; subscribed = [] }
