-- ===== src/Pricing/Registry/Index.antt =====
-- The key set and the alias index agree with the two layers of entries.
use cc_otel.Prelude.{
  ℕ, ◌≡◌, ◌≢◌, refl, ◌∙◌, ◌⊎◌, inl, inr, Bool, true, false, ◌||◌, if◌then◌else◌, Option, none, some,
  List, [], ◌∷◌, Bool-cases, arith,
}
use mathlib.Core.Path.{subst}
use cc_otel.Prelude.Text.{Text, text_eq, text_eq_iff}
use cc_otel.Prelude.Table.{Table, contains, lookup, insert, lookup-insert}
use cc_otel.Pricing.Name.{normalize}
use cc_otel.Pricing.Price.{Entry}
use cc_otel.Pricing.Registry.{
  Registry, ConfigPrice, has, add_key, user_entry, load_overrides, add_aliases, add_keys,
  add_layer_aliases, rebuild_index, collect_rows, reload, new_registry,
}

contains-add_key :
    (j k : Text) (ks : List Text) → contains k (add_key j ks) ≡ (text_eq j k || contains k ks)
unfolding add_key contains
contains-add_key j k ks = ground (arith, text_eq_iff j k)

lookup_empty : (a k : Text) → lookup {V = Text} a [] ≢ some k
unfolding lookup
lookup_empty a k h = cc

-- The alias index after the aliases of one entry names that entry, or what it named before.
add_aliases_from :
    (model : Text) (aliases : List Text) (index : Table Text) (a k : Text)
    → lookup a (add_aliases model aliases index) ≡ some k
    → (k ≡ model) ⊎ (lookup a index ≡ some k)
unfolding add_aliases
add_aliases_from model [] index a k h = inr h
add_aliases_from model (b ∷ aliases) index a k h =
    let na = normalize b in
    let skip = text_eq na [] || text_eq na model in
    let next = if skip then index else insert na model index in
    from next (add_aliases_from model aliases next a k h) (step skip na)
  where
    from :
        (next : Table Text)
        → (k ≡ model) ⊎ (lookup a next ≡ some k)
        → ((lookup a next ≡ some k) → (k ≡ model) ⊎ (lookup a index ≡ some k))
        → (k ≡ model) ⊎ (lookup a index ≡ some k)
    from next (inl e) s = inl e
    from next (inr e) s = s e

    step :
        (skip : Bool) (na : Text)
        → lookup a (if skip then index else insert na model index) ≡ some k
        → (k ≡ model) ⊎ (lookup a index ≡ some k)
    step true na e = inr e
    step false na e = ground (arith, lookup-insert na a model index)

module _ {F : Type 0} where
  -- Every entry of a layer stands under its own name.
  abbrev pub Named : Table (Entry F) → Type 0
  Named [] = Unit
  Named ((k, e) ∷ layer) = (e.model ≡ k) × Named layer

  pub Named-insert :
      (e : Entry F) (layer : Table (Entry F)) → Named layer → Named (insert e.model e layer)
  unfolding insert
  Named-insert e [] h = (refl, tt)
  Named-insert e ((k, d) ∷ layer) h = elim (Bool-cases (text_eq k e.model)) [
    | inl q ↦ rw q (refl, h.1)
    | inr q ↦ rw q (h.0, Named-insert e layer h.1)
  ]

  pub Named-lookup :
      (k : Text) (e : Entry F) (layer : Table (Entry F))
      → Named layer
      → lookup k layer ≡ some e
      → e.model ≡ k
  unfolding lookup
  Named-lookup k e [] n h = cc
  Named-lookup k e ((j, d) ∷ layer) n h =
      ground (arith, Named-lookup k e layer n.1, text_eq_iff j k, n.0)

  Named-collect_rows :
      (rows : List (Entry F)) (table : Table (Entry F))
      → Named table
      → Named (collect_rows rows table)
  unfolding collect_rows
  Named-collect_rows [] table n = n
  Named-collect_rows (e ∷ rows) table n =
      Named-collect_rows rows (insert e.model e table) (Named-insert e table n)

  Named-load_overrides :
      (pricing : List (Text × ConfigPrice F)) (user : Table (Entry F))
      → Named user
      → Named (load_overrides pricing user)
  unfolding load_overrides
  Named-load_overrides [] user n = n
  Named-load_overrides ((name, p) ∷ pricing) user n =
      elim (Bool-cases (text_eq (normalize name) [])) [
        | inl e ↦ rw e (Named-load_overrides pricing user n)
        | inr e ↦ rw e (
            Named-load_overrides pricing
              (insert (normalize name) (user_entry (normalize name) p) user)
              (unfold user_entry in Named-insert (user_entry (normalize name) p) user n))
      ]

  contains-add_keys :
      (layer : Table (Entry F)) (k : Text) (ks : List Text)
      → Named layer
      → contains k (add_keys layer ks) ≡ (has (lookup k layer) || contains k ks)
  unfolding add_keys lookup
  contains-add_keys [] k ks n = refl
  contains-add_keys ((j, e) ∷ layer) k ks n = ground (
    arith,
    contains-add_keys layer k (add_key e.model ks) n.1,
    contains-add_key e.model k ks,
    n.0,
  )

  add_layer_aliases_from :
      (layer : Table (Entry F)) (index : Table Text) (a k : Text)
      → Named layer
      → lookup a (add_layer_aliases layer index) ≡ some k
      → (has (lookup k layer) ≡ true) ⊎ (lookup a index ≡ some k)
  unfolding add_layer_aliases lookup
  add_layer_aliases_from [] index a k n h = inr h
  add_layer_aliases_from ((j, e) ∷ layer) index a k n h = ground (
    arith,
    add_layer_aliases_from layer (add_aliases e.model e.aliases index) a k n.1,
    add_aliases_from e.model e.aliases index a k,
    n.0,
    text_eq_iff j k,
  )

  -- The two layers hold entries under their own names, and the two indexes hold the names of the
  -- entries and nothing else.
  pub record IsIndexed (r : Registry F) : Type 0 where
    pub named_user : Named r.user_by_key
    pub named_table : Named r.table_by_key
    pub keys_exact :
        (k : Text)
        → contains k r.key_set ≡ (has (lookup k r.user_by_key) || has (lookup k r.table_by_key))
    pub aliases_known : (a k : Text) → lookup a r.alias_index ≡ some k → contains k r.key_set ≡ true

  keys-rebuild_index :
      (r : Registry F) (k : Text)
      → Named r.user_by_key
      → Named r.table_by_key
      → contains k (rebuild_index r).key_set
        ≡ (has (lookup k r.user_by_key) || has (lookup k r.table_by_key))
  unfolding rebuild_index contains
  keys-rebuild_index r k nu nt = ground (
    arith,
    contains-add_keys r.user_by_key k (add_keys r.table_by_key []) nu,
    contains-add_keys r.table_by_key k [] nt,
  )

  rebuild_index-IsIndexed :
      (r : Registry F) → Named r.user_by_key → Named r.table_by_key → IsIndexed (rebuild_index r)
  unfolding rebuild_index
  rebuild_index-IsIndexed r nu nt = record {
    named_user = nu;
    named_table = nt;
    keys_exact = λ k. keys-rebuild_index r k nu nt;
    aliases_known = λ a k h. keys-rebuild_index r k nu nt ∙ known a k h;
  }
    where
      known :
          (a k : Text)
          → lookup a (add_layer_aliases r.user_by_key (add_layer_aliases r.table_by_key []))
            ≡ some k
          → (has (lookup k r.user_by_key) || has (lookup k r.table_by_key)) ≡ true
      known a k h = ground (
        arith,
        add_layer_aliases_from r.user_by_key (add_layer_aliases r.table_by_key []) a k nu h,
        add_layer_aliases_from r.table_by_key [] a k nt,
        lookup_empty a k,
      )

  -- A change outside the layers and the indexes.
  pub same_indexes-IsIndexed :
      (r s : Registry F)
      → s.user_by_key ≡ r.user_by_key
      → s.table_by_key ≡ r.table_by_key
      → s.key_set ≡ r.key_set
      → s.alias_index ≡ r.alias_index
      → IsIndexed r
      → IsIndexed s
  same_indexes-IsIndexed r s u t k a v = record {
    named_user = rw u v.named_user;
    named_table = rw t v.named_table;
    keys_exact = λ j. rw (k, u, t) (v.keys_exact j);
    aliases_known = λ b j h. rw k (v.aliases_known b j (rw a at h));
  }

  -- A Reload keeps the registry indexed, whether its query fails or not.
  pub reload-IsIndexed :
      (now : ℕ) (rows : Option (List (Entry F))) (r : Registry F)
      → IsIndexed r
      → IsIndexed (reload now rows r).0
  unfolding reload
  reload-IsIndexed now none r v = v
  reload-IsIndexed now (some rows) r v =
      same_indexes-IsIndexed (rebuild_index (record r { table_by_key = collect_rows rows [] }))
        (reload now (some rows) r).0 refl refl refl refl
        (rebuild_index-IsIndexed (record r { table_by_key = collect_rows rows [] }) v.named_user
          (Named-collect_rows rows [] tt))

  -- The registry that NewRegistry returns is indexed, whatever the configuration and the table.
  pub new_registry-IsIndexed :
      (pricing : List (Text × ConfigPrice F)) (now : ℕ) (rows : Option (List (Entry F)))
      → (r : Registry F) → new_registry pricing now rows ≡ some r
      → IsIndexed r
  unfolding new_registry reload
  new_registry-IsIndexed pricing now none r h = cc
  new_registry-IsIndexed pricing now (some rows) r h = subst IsIndexed (some_eq h) (
      same_indexes-IsIndexed (rebuild_index (record empty { table_by_key = collect_rows rows [] }))
        (record (rebuild_index (record empty { table_by_key = collect_rows rows [] })) {
          last_reload = now;
        })
        refl refl refl refl
        (rebuild_index-IsIndexed (record empty { table_by_key = collect_rows rows [] })
          (Named-load_overrides pricing [] tt) (Named-collect_rows rows [] tt)))
    where
      empty : Registry F
      empty = record {
        user_by_key = load_overrides pricing [];
        table_by_key = [];
        key_set = [];
        alias_index = [];
        miss_counts = [];
        miss_order = [];
        last_reload = 0;
      }

      some_eq : {a b : Registry F} → some a ≡ some b → a ≡ b
      some_eq e = cc
