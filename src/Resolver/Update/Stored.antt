-- ===== src/Resolver/Update/Stored.antt =====
-- What `Update` of the Flask service writes for the services of a message.
use mathlib.Core.Path.{subst}
use mathlib.Core.List.{Forall₂}
use text.Mathlib.TextLemmas.{nil-append}
use versatile.Base.{
  ℕ, zero, suc, ◌+◌, ◌-◌, String, ◌<>◌, ◌≡◌, refl, ap, true, some, List, [], ◌∷◌, ◌++◌, map, length,
  arith, ltb, if◌then◌else◌,
}
use versatile.Base.Int.{ℤ, pos}
use versatile.Py.Value.{
  ok, Value, str, dict, list_of, Fields, field_of, get, to_list, of_list, size_of, sequence,
  as_text, number, to_list-of_list, iterate, first,
}
use versatile.Py.Text.{repr_int}
use versatile.Py.Text.Number.{to_int}
use versatile.Py.Exec.{pure, lift, traverse, try_except, ◌>>=◌, ◌>>◌}
use versatile.Resolver.{Server, Resolver, commit, connect, execute, only_cell}
use versatile.Resolver.Steps.{
  Step, perform, Runs, Runs-lifts, Runs-reads, Runs-bind, Runs-count, Runs-execute, Runs-pure,
  Runs-forget, Anything, Runs-commit, Runs-reply,
}
use versatile.Resolver.Steps.Loops.{all_steps, Runs-traverse, after_all}
use versatile.Resolver.Update.Offer.{
  Offer, IsOffer, attributes_from, quoted, new_columns, offer_steps, attr_names_lem,
  attr_values_lem,
}
use versatile.Resolver.Update.{
  column_number, add_columns, insert_service, insert_services, error_reply, update, update_work,
}

-- The queries before the loop.
abbrev pub device_query : ℤ → String
device_query d = "SELECT dummyID from Device where deviceID='" <> repr_int d <> "'"

abbrev pub columns_query : String
columns_query = "SELECT count(*) from information_schema.columns where table_name = 'Service'"

abbrev pub offers_steps : ℕ → ℤ → ℕ → List Offer → List Step
offers_steps columns d n offers =
    all_steps (offer_steps columns (repr_int d)) (λ n. n + 1) n offers ++ (Step.save ∷ [])

module _ (V : Server) where
  column_number_lem :
      (columns i j : ℕ) → j ≡ columns + 1 + i → column_number (columns + 4) i ≡ pos j
  unfolding column_number
  column_number_lem columns i j h = ground arith

  add_columns-Runs :
      (columns i j k n : ℕ)
      → j ≡ columns + 1 + i
      → Runs V n (add_columns V (columns + 4) i k) (new_columns j k) n (Anything V)
  unfolding add_columns repr_int
  add_columns-Runs columns i j zero n h = Runs-forget V (Runs-pure V n tt)
  add_columns-Runs columns i j (suc k) n h = rw (column_number_lem columns i j h) (
      Runs-bind V _ _ (Runs-execute V n _)
        (λ rows _. add_columns-Runs columns (i + 1) (j + 1) k n (omega arith)))

  texts_read :
      (texts : List String) (s : Resolver V.State)
      → traverse (λ a. lift (as_text a)) (map str texts) s ≡ (ok texts, s)
  unfolding traverse lift pure as_text ◌>>=◌
  texts_read [] s = refl
  texts_read (a ∷ texts) s = rw (texts_read texts s) refl

  length_of_texts :
      (texts : List String) → length (to_list (of_list (map str texts))) ≡ length texts
  length_of_texts [] = refl
  length_of_texts (a ∷ texts) = ap suc (length_of_texts texts)

  size_of_texts : (texts : List String) → size_of (list_of (map str texts)) ≡ ok (length texts)
  unfolding size_of
  size_of_texts texts = ap ok (length_of_texts texts)

  insert_service-Runs :
      (columns : ℕ) (device : String) (n : ℕ) (v : Value) (o : Offer)
      → IsOffer v o
      → Runs V n
          (insert_service V (columns + 4) device v)
          (offer_steps columns device n o)
          (n + 1)
          (Anything V)
  unfolding insert_service get sequence as_text
  insert_service-Runs columns device n v o (fs, is, kind, attributes) =
      Runs-lifts V _ (str o.kind) _ (rw is (ap ok kind)) (
        Runs-bind V _ _ (Runs-count V n (str o.kind)) (λ id id_is.
          Runs-lifts V _ (list_of (map str o.attributes)) _ (rw is (ap ok attributes)) (
            Runs-lifts V _ (length o.attributes) _ (size_of_texts o.attributes) (
              Runs-bind V _ _
                (subst
                  (λ (k : ℕ).
                    Runs V (n + 1) (add_columns V (columns + 4) 0 k)
                      (new_columns (columns + 1) (length o.attributes - columns)) (n + 1)
                      (Anything V))
                  (omega arith)
                  (add_columns-Runs columns 0 (columns + 1) (length o.attributes - columns) (n + 1)
                    (omega arith)))
                (λ _ _.
                  Runs-lifts V _ (map str o.attributes) _
                    (ap ok (to_list-of_list (map str o.attributes)))
                    (Runs-reads V _ o.attributes _ (texts_read o.attributes) (
                      Runs-lifts V _ o.kind _ refl (
                        rw
                          (
                            id_is,
                            attr_names_lem 0 o.attributes "",
                            attr_values_lem o.attributes "",
                            nil-append (attributes_from 1 o.attributes),
                            nil-append (quoted o.attributes),
                          )
                          (Runs-execute V (n + 1) _)))))))))

  is_some : (n : ℕ) → ltb 0 (suc n) ≡ true
  is_some n = ground arith

  services_stored :
      (d : ℤ) (columns n : ℕ) (values : List Value) (offers : List Offer)
      → Forall₂ IsOffer values offers
      → Runs V n
          (do
            traverse (insert_service V (columns + 4) (repr_int d)) values
            commit V
            pure (error_reply 0))
          (offers_steps columns d n offers)
          (after_all (λ n. n + 1) n offers)
          (λ a. a ≡ error_reply 0)
  services_stored d columns n values offers hs =
      Runs-bind V _ _
        (Runs-traverse V _ (offer_steps columns (repr_int d)) (λ n. n + 1)
          (insert_service-Runs columns (repr_int d)) n values offers hs)
        (λ _ _. Runs-bind V _ _ (Runs-commit V _) (λ _ _. Runs-pure V _ (error_reply 0)))

  services_inserted :
      (fs : Fields) (d : ℤ) (columns : ℕ) (values : List Value) (offers : List Offer)
      (s : Resolver V.State) (db : V.State)
      → field_of "services" fs ≡ list_of values
      → Forall₂ IsOffer values offers
      → V.execute columns_query s.db ≡ (some (list_of (number (columns + 4) ∷ []) ∷ []), db)
      → let (all, s') =
          perform V (offers_steps columns d s.manage_num offers) (record s { db = db }) in
        try_except (insert_services V (dict fs) (repr_int d)) (λ e. pure (error_reply 1)) s
        ≡ (ok (if all then error_reply 0 else error_reply 1), s')
  unfolding insert_services only_cell first iterate get execute try_except ◌>>=◌
  services_inserted fs d columns values offers s db services are counts =
      rw (services, counts, to_list-of_list values)
        (Runs-reply V
          (do
            traverse (insert_service V (columns + 4) (repr_int d)) values
            commit V
            pure (error_reply 0))
          (error_reply 0) (λ e. error_reply 1) (record s { db = db })
          (services_stored d columns s.manage_num values offers are) refl)

  -- `Update` for a numeric device that is found, in a table with `columns` columns for attributes
  -- when the handler counts them: for each service of the message, in order, a number is taken, the
  -- columns from the one with number `columns + 1` to that of its last attribute are added, also
  -- those that an earlier service of the message has added, and one row is inserted, with the ID
  -- from the number and the kind; then everything is committed. The first failure ends it, and the
  -- reply is error 0 if there was none and error 1 otherwise.
  pub update_lem :
      (fs : Fields) (d : ℤ) (columns : ℕ) (values : List Value) (offers : List Offer) (row : Value)
      (rows : List Value) (s : Resolver V.State) (db1 db2 db3 : V.State)
      → to_int (field_of "deviceID" fs) ≡ ok d
      → field_of "services" fs ≡ list_of values
      → Forall₂ IsOffer values offers
      → V.connect s.db ≡ (true, db1)
      → V.execute (device_query d) db1 ≡ (some (row ∷ rows), db2)
      → V.execute columns_query db2 ≡ (some (list_of (number (columns + 4) ∷ []) ∷ []), db3)
      → let (all, s') =
          perform V (offers_steps columns d s.manage_num offers) (record s { db = db3 }) in
        update V (dict fs) s ≡ (ok (if all then error_reply 0 else error_reply 1), s')
  unfolding update update_work connect execute get try_except ◌>>=◌
  update_lem fs d columns values offers row rows s db1 db2 db3 device services are connects exists
        counts =
      rw (connects, device, exists, is_some (length rows))
        (services_inserted fs d columns values offers (record s { db = db2 }) db3 services are
          counts)
