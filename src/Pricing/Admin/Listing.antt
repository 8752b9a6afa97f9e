-- ===== src/Pricing/Admin/Listing.antt =====
-- internal/pricing/registry.go, List: the layers it merges, the entries it keeps and their order.
-- The rows that it adds for Claude models come from the cached catalog and are left out.
use cc_otel.Prelude.{
  ◌≡◌, refl, Bool, true, false, not, ltb, ◌||◌, ◌&&◌, ◌==◌, if◌then◌else◌, Option, none, some, List,
  [], ◌∷◌, arith,
}
use cc_otel.Prelude.Text.{Text, text_eq, text_lt, has_prefix, to_lower, trim_space}
use cc_otel.Prelude.Table.{Table, lookup, insert, lookup-insert}
use cc_otel.Pricing.Price.{Entry, display_rank}
use cc_otel.Pricing.Admin.{differ, entry_is_local}
use cc_otel.Pricing.Registry.{Registry, resolve}

-- strings.Contains
unfoldable pub has_infix : Text → Text → Bool
has_infix [] q = text_eq q []
has_infix (c ∷ s) q = has_prefix (c ∷ s) q || has_infix s q

module _ {F : Type 0} where
  -- The user's layer over the table.
  unfoldable pub merge_layers : Table (Entry F) → Table (Entry F) → Table (Entry F)
  merge_layers [] table = table
  merge_layers ((k, e) ∷ user) table = insert k e (merge_layers user table)

  -- The filters of the query and the source.
  unfoldable pub is_listed : Text → Text → Text → Entry F → Bool
  is_listed query source k e =
      let q = to_lower (trim_space query) in
      if not (text_eq source []) && not (text_eq e.source source)
      then false
      else if not (text_eq q []) && not (has_infix k q)
      then false
      else true

  unfoldable pub listed_entries : Text → Text → Table (Entry F) → List (Entry F)
  listed_entries query source [] = []
  listed_entries query source ((k, e) ∷ rows) =
      let rest = listed_entries query source rows in
      if is_listed query source k e then e ∷ rest else rest

  -- The order of the page: the models seen locally, then by rank and by name.
  unfoldable pub sorts_before : List Text → Entry F → Entry F → Bool
  sorts_before local a b =
      let la = entry_is_local a local in
      let lb = entry_is_local b local in
      let ra = display_rank a.source in
      let rb = display_rank b.source in
      if differ la lb then la else if not (ra == rb) then ltb rb ra else text_lt a.model b.model

  merge_layers_lem :
      (k : Text) (user table : Table (Entry F))
      → lookup k (merge_layers user table) ≡ elim (lookup k user) as (λ _. Option (Entry F)) [
        | some e ↦ some e
        | none ↦ lookup k table
      ]
  unfolding merge_layers lookup
  merge_layers_lem k [] table = refl
  merge_layers_lem k ((j, e) ∷ user) table =
      ground (arith, merge_layers_lem k user table, lookup-insert j k e (merge_layers user table))

  -- The list is drawn from what a Lookup resolves: under each key the merged view holds the entry
  -- that the registry prices the key with.
  pub merged_is_resolved :
      (r : Registry F) (k : Text)
      → lookup k (merge_layers r.user_by_key r.table_by_key) ≡ resolve r k
  unfolding resolve
  merged_is_resolved r k = merge_layers_lem k r.user_by_key r.table_by_key
