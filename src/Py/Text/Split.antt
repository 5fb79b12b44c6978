-- ===== src/Py/Text/Split.antt =====
-- `split` at the first slash, and the parts of a topic.
use Prim.Native.String.{[], ◌∷◌}
use mathlib.Core.List
use text.Mathlib.TextLemmas.{nil-append, cons-append, append_assoc}
use versatile.Base.{String, ◌<>◌, ◌≡◌, refl, ap, ◌∙◌, false, arith}
use versatile.Base.Chars.{has_char}
use versatile.Py.Text.{split}

slash-append : (rest : String) → "/" <> rest ≡ "/" ∷ rest
slash-append rest = cons-append "/" "" rest ∙ ap (λ (s : String). "/" ∷ s) (nil-append rest)

pub split-slash : (rest : String) → split ("/" <> rest) ≡ List.◌∷◌ "" (split rest)
unfolding split
split-slash rest = rw slash-append refl

-- A part that has no slash is split off whole.
pub split-append :
    (part rest : String)
    → has_char b'/' part ≡ false
    → split (part <> "/" <> rest) ≡ List.◌∷◌ part (split rest)
unfolding split has_char
split-append [] rest h = rw (nil-append ("/" <> rest), slash-append rest) refl
split-append (c ∷ part) rest h =
    rw (cons-append c part ("/" <> rest)) (ground (arith, split-append part rest))

pub split_last : (part : String) → has_char b'/' part ≡ false → split part ≡ List.◌∷◌ part List.[]
unfolding split has_char
split_last [] h = refl
split_last (c ∷ part) h = ground (arith, split_last part)

-- The topic "/area/kind/id" has four parts, the first of them empty.
pub split_topic :
    (area kind id : String)
    → has_char b'/' area ≡ false
    → has_char b'/' kind ≡ false
    → has_char b'/' id ≡ false
    → split (("/" <> area <> "/" <> kind <> "/") <> id)
      ≡ List.◌∷◌ "" (List.◌∷◌ area (List.◌∷◌ kind (List.◌∷◌ id List.[])))
split_topic area kind id ha hk hi =
    simp append_assoc
      (rw (split-slash, split-append area _ ha, split-append kind id hk, split_last id hi) refl)
