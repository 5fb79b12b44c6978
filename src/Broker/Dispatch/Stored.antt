-- ===== src/Broker/Dispatch/Stored.antt =====
-- Where the callback of the database client stores a reply.
use Prim.Native.String.{[], ◌∷◌}
use mathlib.Core.List
use text.Mathlib.TextLemmas.{nil-append, cons-append}
use versatile.Base.{String, ◌<>◌, ◌≡◌, refl, inl, inr, false, some, Bool-cases}
use versatile.Base.Chars.{is_char, has_char}
use versatile.Base.Dict.{insert}
use versatile.Py.Value.{ok, Value}
use versatile.Py.Text.{split}
use versatile.Py.Text.Split.{split-slash, split_last}
use versatile.Manager.Dispatch.{last_part}
use versatile.Broker.Proc.{Globals}
use versatile.Broker.Dispatch.{on_db_message}

-- Behind the slash nothing is split, so that is the last part.
split_ends :
    (a id : String)
    → has_char b'/' id ≡ false
    → (x y : String) × (rest : List.List String) × (split (a <> "/" <> id)
        ≡ List.◌∷◌ x (List.◌∷◌ y rest))
      × (last_part y rest ≡ id)
unfolding split
split_ends [] id h =
    ("", id, List.[], rw (nil-append ("/" <> id), split-slash id, split_last id h) refl, refl)
split_ends (c ∷ a) id h =
    let (x, y, rest, parts, last) = split_ends a id h in
    elim (Bool-cases (is_char c b'/')) [
      | inl slash ↦
          ("", x, List.◌∷◌ y rest, rw (cons-append c a ("/" <> id), slash, parts) refl, last)
      | inr plain ↦ (c ∷ x, y, rest, rw (cons-append c a ("/" <> id), plain, parts) refl, last)
    ]

pub on_db_message-stored :
    (ack id : String) (v : Value) (s : Globals)
    → has_char b'/' id ≡ false
    → on_db_message (ack <> "/" <> id) (some v) s
      ≡ ok (record s { query_cache = insert id v s.query_cache })
unfolding on_db_message
on_db_message-stored ack id v s h =
    let (x, y, rest, parts, last) = split_ends ack id h in rw (parts, last) refl
