-- ===== src/Manager/Dispatch/Ids.antt =====
-- The IDs that the manager has answered to joins, over a sequence of messages.
use mathlib.Core.List.{append_assoc, append-nil}
use versatile.Base.{
  String, ◌≡◌, refl, ◌∙◌, sym, ap, Bool, true, false, Option, none, some, List, [], ◌∷◌, ◌++◌, ◌==◌,
  any, arith, eq_iff, if◌then◌else◌,
}
use versatile.Base.Dict.{Dict, contains}
use versatile.Py.Value.{Value, str}
use versatile.Manager.{Manager}
use versatile.Manager.Join.Fresh.{id_of}

abbrev ids_in : Option Value → List String
ids_in (some (str id)) = id ∷ []
ids_in _ = []

-- The IDs in the replies to joins, in order.
abbrev pub given_ids : List (String × Value) → List String
given_ids [] = []
given_ids ((topic, m) ∷ ms) = ids_in (id_of m) ++ given_ids ms

abbrev pub is_in : String → List String → Bool
is_in id ids = any (λ other. other == id) ids

-- No ID twice.
abbrev pub AllDiffer : List String → Type 0
AllDiffer [] = Unit
AllDiffer (id ∷ ids) = (is_in id ids ≡ false) × AllDiffer ids

abbrev pub AllCached : List String → Dict Value → Type 0
AllCached [] cache = Unit
AllCached (id ∷ ids) cache = (contains id cache ≡ true) × AllCached ids cache

pub AllCached-all :
    (ids : List String) (cache : Dict Value)
    → ((id : String) → is_in id ids ≡ true → contains id cache ≡ true)
    → AllCached ids cache
AllCached-all [] cache h = tt
AllCached-all (x ∷ ids) cache h =
    (h x (ground (arith, eq_iff x x)), AllCached-all ids cache (λ id p. h id (ground arith)))

is_in-append :
    (id new : String) (ids : List String)
    → is_in id (ids ++ new ∷ []) ≡ (if is_in id ids then true else new == id)
is_in-append id new [] = ground arith
is_in-append id new (x ∷ ids) = ground (arith, is_in-append id new ids)

AllDiffer-append :
    (new : String) (ids : List String)
    → AllDiffer ids
    → is_in new ids ≡ false
    → AllDiffer (ids ++ new ∷ [])
AllDiffer-append new [] h absent = (refl, tt)
AllDiffer-append new (x ∷ ids) (one, all) absent = (
  ground (arith, is_in-append x new ids, eq_iff new x, eq_iff x new),
  AllDiffer-append new ids all (ground arith),
)

given_ids-append :
    (ms : List (String × Value)) (topic : String) (m : Value)
    → given_ids (ms ++ (topic, m) ∷ []) ≡ given_ids ms ++ ids_in (id_of m)
given_ids-append [] topic m = append-nil (ids_in (id_of m))
given_ids-append ((t, n) ∷ ms) topic m =
    ap (λ l. ids_in (id_of n) ++ l) (given_ids-append ms topic m)
    ∙ sym (append_assoc (ids_in (id_of n)) (given_ids ms) (ids_in (id_of m)))

-- The IDs that were answered differ, and are cached.
pub record Remembers {S : Type 0} (s : Manager S) : Type 0 where
  pub differ : AllDiffer (given_ids s.published)
  pub kept :
      (id : String) → is_in id (given_ids s.published) ≡ true → contains id s.device_cache ≡ true

module _ {S : Type 0} where
  -- From `s` to `s'` the message `m` is published and the cache grows.
  module _ (s s' : Manager S) (topic : String) (m : Value)
      (one : s'.published ≡ s.published ++ (topic, m) ∷ [])
      (grows : (id : String)
        → contains id s.device_cache ≡ true
        → contains id s'.device_cache ≡ true)
      (before : Remembers s) where
    ids_after : given_ids s'.published ≡ given_ids s.published ++ ids_in (id_of m)
    ids_after = ap given_ids one ∙ given_ids-append s.published topic m

    -- A message without an ID, or with one that was not cached and is now.
    pub Remembers-none : id_of m ≡ none → Remembers s'
    Remembers-none no_id =
        let same : given_ids s'.published ≡ given_ids s.published =
          ids_after ∙ rw no_id (append-nil (given_ids s.published)) in
        record {
          differ = rw same (before.differ);
          kept = λ id h. grows id (before.kept id (rw (← same) h));
        }

    pub Remembers-new :
        (new : String)
        → id_of m ≡ some (str new)
        → contains new s.device_cache ≡ false
        → contains new s'.device_cache ≡ true
        → Remembers s'
    Remembers-new new has_id absent given =
        let same : given_ids s'.published ≡ given_ids s.published ++ new ∷ [] =
          ids_after ∙ rw has_id refl in
        record {
          differ = rw same (
              AllDiffer-append new (given_ids s.published) before.differ
                (ground (arith, before.kept new)));
          kept = λ id h.
              let here : is_in id (given_ids s.published ++ new ∷ []) ≡ true = rw (← same) h in
              ground (
                arith,
                is_in-append id new (given_ids s.published),
                eq_iff new id,
                before.kept id,
                grows id,
              );
        }
