-- ===== src/Pricing/Registry/Writes/Effects.antt =====
-- What a write leaves in the table and what the next Lookup answers.
use cc_otel.Prelude.{
  ℕ, ◌≡◌, ◌≢◌, refl, ap, ◌∙◌, sym, inl, inr, true, false, if◌then◌else◌, Option, none, some, List,
  [], ◌∷◌, Bool-cases, arith,
}
use mathlib.Core.Path.{subst}
use cc_otel.Prelude.Text.{Text, text_eq, text_eq_iff, text_eq_self}
use cc_otel.Prelude.Table.{Table, contains, lookup, insert, lookup-insert}
use cc_otel.Pricing.Name.{normalize}
use cc_otel.Pricing.Price.{Floats, Entry}
use cc_otel.Pricing.Match.{exact}
use cc_otel.Pricing.Registry.{Registry, collect_rows, reload, rebuild_index, lookup_model}
use cc_otel.Pricing.Registry.Index.{IsIndexed, reload-IsIndexed}
use cc_otel.Pricing.Registry.Lookups.{table_entry_found}
use cc_otel.Pricing.Registry.Writes.{
  Store, Outside, done, saved_source, upsert_row, delete_row, queried, reload_store, delete_model,
  saved_entry, upsert,
}

lookup_nothing : {F : Type 0} (k : Text) → lookup {V = Entry F} k [] ≡ none
unfolding lookup
lookup_nothing k = refl

module _ {F : Type 0} where
  -- SELECT … WHERE model = ?
  unfoldable pub find_row : Text → List (Entry F) → Option (Entry F)
  find_row k [] = none
  find_row k (e ∷ rows) = if text_eq e.model k then some e else find_row k rows

  -- The primary key: no two rows have one model.
  abbrev pub PrimaryKey : List (Entry F) → Type 0
  PrimaryKey [] = Unit
  PrimaryKey (e ∷ rows) = (find_row e.model rows ≡ none) × PrimaryKey rows

  -- A new row, or the new values over an old row.
  abbrev merged : Entry F → Option (Entry F) → Entry F
  merged e none = e
  merged e (some d) = record e { fetched_at = d.fetched_at }

  find_row-upsert_row :
      (e : Entry F) (k : Text) (rows : List (Entry F))
      → find_row k (upsert_row e rows)
        ≡ (if text_eq e.model k then some (merged e (find_row e.model rows)) else find_row k rows)
  unfolding find_row upsert_row
  find_row-upsert_row e k [] = refl
  find_row-upsert_row e k (d ∷ rows) = ground (
    arith,
    find_row-upsert_row e k rows,
    text_eq_iff e.model k,
    text_eq_iff d.model k,
    text_eq_iff d.model e.model,
  )

  find_row-delete_row :
      (key k : Text) (rows : List (Entry F))
      → find_row k (delete_row key rows) ≡ (if text_eq key k then none else find_row k rows)
  unfolding find_row delete_row
  find_row-delete_row key k [] = ground arith
  find_row-delete_row key k (d ∷ rows) = ground (
    arith,
    find_row-delete_row key k rows,
    text_eq_iff key k,
    text_eq_iff d.model k,
    text_eq_iff d.model key,
  )

  PrimaryKey-upsert_row :
      (e : Entry F) (rows : List (Entry F)) → PrimaryKey rows → PrimaryKey (upsert_row e rows)
  unfolding upsert_row
  PrimaryKey-upsert_row e [] p = (unfold find_row in refl, tt)
  PrimaryKey-upsert_row e (d ∷ rows) p = elim (Bool-cases (text_eq d.model e.model)) [
    | inl q ↦ rw q (cc (p.0, (text_eq_iff d.model e.model).0 q), p.1)
    | inr q ↦ rw q (
      ground (
        arith,
        find_row-upsert_row e d.model rows,
        p.0,
        text_eq_iff d.model e.model,
        text_eq_iff e.model d.model,
      ),
      PrimaryKey-upsert_row e rows p.1,
    )
  ]

  PrimaryKey-delete_row :
      (key : Text) (rows : List (Entry F)) → PrimaryKey rows → PrimaryKey (delete_row key rows)
  unfolding delete_row
  PrimaryKey-delete_row key [] p = tt
  PrimaryKey-delete_row key (d ∷ rows) p = elim (Bool-cases (text_eq d.model key)) [
    | inl q ↦ rw q (PrimaryKey-delete_row key rows p.1)
    | inr q ↦ rw q (
      ground (arith, find_row-delete_row key d.model rows, p.0),
      PrimaryKey-delete_row key rows p.1,
    )
  ]

  -- The map that Reload builds answers as the table does.
  lookup-collect_rows :
      (rows : List (Entry F)) (k : Text) (table : Table (Entry F))
      → PrimaryKey rows
      → lookup k (collect_rows rows table)
        ≡ elim (find_row k rows) [ none ↦ lookup k table | some e ↦ some e ]
  unfolding collect_rows find_row
  lookup-collect_rows [] k table p = refl
  lookup-collect_rows (e ∷ rows) k table p = ground (
    arith,
    lookup-collect_rows rows k (insert e.model e table) p.1,
    lookup-insert e.model k e table,
    text_eq_iff e.model k,
    p.0,
  )

  lookup-collected :
      (rows : List (Entry F)) (k : Text)
      → PrimaryKey rows
      → lookup k (collect_rows rows []) ≡ find_row k rows
  lookup-collected rows k p =
      ground (arith, lookup-collect_rows rows k [] p, lookup_nothing {F = F} k)

  -- The registry behind a Reload that succeeded.
  reload_store_done :
      (o : Outside) (rows : List (Entry F)) (r : Registry F)
      → (reload_store o rows r).1 ≡ true
      → ((reload_store o rows r).0.registry.user_by_key ≡ r.user_by_key)
        × ((reload_store o rows r).0.registry.table_by_key ≡ collect_rows rows [])
        × ((reload_store o rows r).0.rows ≡ rows)
  unfolding reload_store reload rebuild_index
  reload_store_done o rows r h = ground arith

  reload_store-IsIndexed :
      (o : Outside) (rows : List (Entry F)) (r : Registry F)
      → IsIndexed r
      → IsIndexed (reload_store o rows r).0.registry
  unfolding reload_store
  reload_store-IsIndexed o rows r v = reload-IsIndexed o.now (queried o.query_succeeds rows) r v

  -- A table that is a legal one, and a registry that is indexed.
  pub record IsSound (s : Store F) : Type 0 where
    pub primary_key : PrimaryKey s.rows
    pub indexed : IsIndexed s.registry

  reload_store-IsSound :
      (o : Outside) (rows : List (Entry F)) (r : Registry F)
      → IsIndexed r
      → PrimaryKey rows
      → IsSound (reload_store o rows r).0
  unfolding reload_store
  reload_store-IsSound o rows r v p = record {
    primary_key = p;
    indexed = reload-IsIndexed o.now (queried o.query_succeeds rows) r v;
  }

  -- After a Reload over the rows, a row is found by any name that normalizes to its model, unless
  -- an override stands in front of it.
  row_found :
      (o : Outside) (rows : List (Entry F)) (r : Registry F) (model : Text) (e : Entry F)
      → IsIndexed r
      → PrimaryKey rows
      → (reload_store o rows r).1 ≡ true
      → normalize model ≢ []
      → lookup (normalize model) r.user_by_key ≡ none
      → find_row (normalize model) rows ≡ some e
      → let r' = (reload_store o rows r).0.registry in
        lookup_model model r'
        ≡ (record { entry = some e; kind = exact; matched_key = normalize model }, r')
  row_found o rows r model e v p h ne u f =
      let (user, table, _) = reload_store_done o rows r h in
      table_entry_found model (reload_store o rows r).0.registry e
        (reload_store-IsIndexed o rows r v) ne (rw user u)
        (rw table (lookup-collected rows (normalize model) p ∙ f))

-- Upsert comes to its statement only past its three tests.
upsert_done :
    (fl : Floats) (o : Outside) (e : Entry fl.F) (s : Store fl.F) (r : Entry fl.F)
    → (upsert fl o e s).1 ≡ done r
    → let t = reload_store o (upsert_row (saved_entry o.now e) s.rows) s.registry in
      ((upsert fl o e s).0 ≡ t.0) × (t.1 ≡ true) × (text_eq (normalize e.model) [] ≡ false)
unfolding upsert
upsert_done fl o e s r h = ground arith

upsert_row_found :
    {F : Type 0} (e : Entry F) (k : Text) (rows : List (Entry F))
    → e.model ≡ k
    → find_row k (upsert_row e rows) ≡ some (merged e (find_row e.model rows))
upsert_row_found e k rows h = find_row-upsert_row e k rows ∙ rw ((text_eq_iff e.model k).1 h)

-- The written row has the saved fields, whether it is new or replaces an old one.
merged_fields :
    {F : Type 0} (now : ℕ) (e : Entry F) (old : Option (Entry F))
    → let x = merged (saved_entry now e) old in
      (x.input ≡ e.input)
      × (x.output ≡ e.output)
      × (x.cache_read ≡ e.cache_read)
      × (x.cache_creation ≡ e.cache_creation)
      × (x.source ≡ saved_source e.source)
      × (x.updated_at ≡ now)
unfolding saved_entry
merged_fields now e none = (refl, refl, refl, refl, refl, refl)
merged_fields now e (some d) = (refl, refl, refl, refl, refl, refl)

saved_model : {F : Type 0} (now : ℕ) (e : Entry F) → (saved_entry now e).model ≡ normalize e.model
unfolding saved_entry
saved_model now e = refl

-- The store answers to a name with the saved price.
abbrev pub Priced : {F : Type 0} → Outside → Entry F → Text → Store F → Type 0
Priced {F} o e model s =
    IsSound s
    × ((x : Entry F) × (lookup_model model s.registry
          ≡ (record { entry = some x; kind = exact; matched_key = normalize model }, s.registry))
        × (x.input ≡ e.input)
        × (x.output ≡ e.output)
        × (x.cache_read ≡ e.cache_read)
        × (x.cache_creation ≡ e.cache_creation)
        × (x.source ≡ saved_source e.source)
        × (x.updated_at ≡ o.now))

-- A saved price is used: once Upsert returns without an error, and no override of the configuration
-- stands in front of it, a Lookup of any name that normalizes as the saved one answers with an
-- exact match whose rates are the saved ones, whose source is "openrouter" or "manual" as saved,
-- and whose update time is that of the save; and table and registry are sound again.
pub upsert-Priced :
    (fl : Floats) (o : Outside) (e : Entry fl.F) (s : Store fl.F) (r : Entry fl.F) (model : Text)
    → IsSound s
    → (upsert fl o e s).1 ≡ done r
    → normalize model ≡ normalize e.model
    → lookup (normalize e.model) s.registry.user_by_key ≡ none
    → Priced o e model (upsert fl o e s).0
upsert-Priced fl o e s r model v h n u =
    let saved = saved_entry o.now e in
    let (stored, reloaded, nz) = upsert_done fl o e s r h in
    let old = find_row saved.model s.rows in
    let (a, b, c, d, f, g) = merged_fields o.now e old in
    subst (Priced o e model) (sym stored) (
      reload_store-IsSound o (upsert_row saved s.rows) s.registry v.indexed
          (PrimaryKey-upsert_row saved s.rows v.primary_key),
      (
        merged saved old,
        row_found o (upsert_row saved s.rows) s.registry model (merged saved old) v.indexed
            (PrimaryKey-upsert_row saved s.rows v.primary_key) reloaded
            (λ z. ground (arith, text_eq_iff (normalize e.model) [])) (rw n u)
            (upsert_row_found saved (normalize model) s.rows (saved_model o.now e ∙ sym n)),
        a,
        b,
        c,
        d,
        f,
        g,
      ),
    )

delete_done :
    {F : Type 0} (o : Outside) (model : Text) (s : Store F)
    → (delete_model o model s).1 ≡ done tt
    → let t = reload_store o (delete_row (normalize model) s.rows) s.registry in
      ((delete_model o model s).0 ≡ t.0) × (t.1 ≡ true)
unfolding delete_model
delete_done o model s h = ground arith

reloaded_keys :
    {F : Type 0} (o : Outside) (rows : List (Entry F)) (r : Registry F) (k : Text)
    → IsIndexed r
    → PrimaryKey rows
    → (reload_store o rows r).1 ≡ true
    → lookup k r.user_by_key ≡ none
    → find_row k rows ≡ none
    → contains k (reload_store o rows r).0.registry.key_set ≡ false
reloaded_keys o rows r k v p h u f =
    let (user, table, _) = reload_store_done o rows r h in
    (reload_store-IsIndexed o rows r v).keys_exact k
    ∙ rw (user, table, u, lookup-collected rows k p, f) refl

abbrev pub Unpriced : {F : Type 0} → Text → Store F → Type 0
Unpriced k s = IsSound s × (contains k s.registry.key_set ≡ false) × (find_row k s.rows ≡ none)

-- Deleting a model that no override names leaves a sound store in which its name is neither a row
-- of the table nor a key of the registry.
pub delete-Unpriced :
    {F : Type 0} (o : Outside) (model : Text) (s : Store F)
    → IsSound s
    → (delete_model o model s).1 ≡ done tt
    → lookup (normalize model) s.registry.user_by_key ≡ none
    → Unpriced (normalize model) (delete_model o model s).0
delete-Unpriced o model s v h u =
    let k = normalize model in
    let rows = delete_row k s.rows in
    let (stored, reloaded) = delete_done o model s h in
    let gone = find_row-delete_row k k s.rows ∙ rw (text_eq_self k) refl in
    let p = PrimaryKey-delete_row k s.rows v.primary_key in
    subst (Unpriced k) (sym stored) (
      reload_store-IsSound o rows s.registry v.indexed p,
      reloaded_keys o rows s.registry k v.indexed p reloaded u gone,
      ap (find_row k) (reload_store_done o rows s.registry reloaded).2 ∙ gone,
    )
