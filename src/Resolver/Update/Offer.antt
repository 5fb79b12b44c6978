-- ===== src/Resolver/Update/Offer.antt =====
-- A service of a message, and what `Update` of the Flask service does for it.
use text.Mathlib.TextLemmas.{append-nil, append_assoc}
use versatile.Base.{
  ℕ, zero, suc, ◌+◌, ◌-◌, String, ◌<>◌, ◌≡◌, sym, ap, ◌∙◌, false, List, [], ◌∷◌, ◌++◌, map, length,
  arith,
}
use versatile.Base.Decimal.{decimal}
use versatile.Py.Value.{Value, str, dict, list_of, Fields, field_of}
use versatile.Py.Text.{to_str}
use versatile.Resolver.ServiceId.{service_id, four_digits}
use versatile.Resolver.Steps.{Step}
use versatile.Resolver.Update.{attr_names, attr_values}

-- A service of a message.
pub record Offer : Type 0 where
  pub kind : String
  pub attributes : List String

abbrev pub IsOffer : Value → Offer → Type 0
IsOffer v o =
    (fs : Fields) × (v ≡ dict fs)
    × (field_of "serviceType" fs ≡ str o.kind)
    × (field_of "attributes" fs ≡ list_of (map str o.attributes))

-- The names of the columns for attributes, from the one with number `i`.
abbrev pub attributes_from : ℕ → List String → String
attributes_from i [] = ""
attributes_from i (a ∷ attributes) = ", attr" <> decimal i <> attributes_from (i + 1) attributes

abbrev pub quoted : List String → String
quoted [] = ""
quoted (a ∷ attributes) = ", '" <> a <> "'" <> quoted attributes

-- The statements that add `k` columns, from the one with number `i`.
abbrev pub new_columns : ℕ → ℕ → List Step
new_columns i zero = []
new_columns i (suc k) =
    Step.statement
      ("ALTER table Service add " <> ("attr" <> decimal i) <> " varchar(50) default '.'")
    ∷ new_columns (i + 1) k

-- What is done for a service, if the table has `columns` columns for attributes and the last
-- service got number `n`.
abbrev pub insert_offer : String → ℕ → Offer → String
insert_offer device n o =
    "INSERT into Service (serviceID, deviceID, serviceType"
    <> attributes_from 1 o.attributes
    <> ") values ('"
    <> to_str (λ n. false) (service_id (str o.kind) (four_digits (n + 1)))
    <> "', '"
    <> device
    <> "', '"
    <> o.kind
    <> "'"
    <> quoted o.attributes
    <> ")"

abbrev pub offer_steps : ℕ → String → ℕ → Offer → List Step
offer_steps columns device n o =
    Step.count
    ∷ (new_columns (columns + 1) (length o.attributes - columns)
        ++ (Step.statement (insert_offer device n o) ∷ []))

pub attr_names_lem :
    (i : ℕ) (texts : List String) (names : String)
    → attr_names i (map str texts) names ≡ names <> attributes_from (i + 1) texts
unfolding attr_names
attr_names_lem i [] names = sym (append-nil names)
attr_names_lem i (a ∷ texts) names =
    attr_names_lem (suc i) texts (names <> ", attr" <> decimal (i + 1))
    ∙ ap (λ k. (names <> ", attr" <> decimal (i + 1)) <> attributes_from k texts) (omega arith)
    ∙ append_assoc names (", attr" <> decimal (i + 1)) (attributes_from (i + 1 + 1) texts)
    ∙ ap (λ t. names <> t)
        (append_assoc ", attr" (decimal (i + 1)) (attributes_from (i + 1 + 1) texts))

pub attr_values_lem :
    (texts : List String) (values : String) → attr_values texts values ≡ values <> quoted texts
unfolding attr_values
attr_values_lem [] values = sym (append-nil values)
attr_values_lem (a ∷ texts) values =
    attr_values_lem texts (values <> ", '" <> a <> "'")
    ∙ append_assoc values (", '" <> a <> "'") (quoted texts)
    ∙ ap (λ t. values <> t)
        (append_assoc ", '" (a <> "'") (quoted texts)
          ∙ ap (λ t. ", '" <> t) (append_assoc a "'" (quoted texts)))
