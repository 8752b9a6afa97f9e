-- ===== src/Pricing/Registry.antt =====
-- internal/pricing/registry.go: the registry that answers price lookups from memory. The table
-- model_pricing of the database is a `Table` of entries by their primary key.
pub mod Index
pub mod Lookups
pub mod Misses
pub mod Writes
pub mod Stats
mod Tests
use cc_otel.Prelude.{
  ℕ, ◌+◌, Bool, true, false, ◌||◌, not, leb, ◌==◌, if◌then◌else◌, Option, none, some, List, [], ◌∷◌,
  ◌++◌, length,
}
use cc_otel.Prelude.Int.{ℤ}
use cc_otel.Prelude.Text.{Text, codes, text_eq}
use cc_otel.Prelude.Table.{Table, contains, lookup, insert, erase, keys}
use cc_otel.Pricing.Name.{normalize}
use cc_otel.Pricing.Price.{Floats, Entry, entry_calc, source_rank}
use cc_otel.Pricing.Match.{MatchKind, miss, basename, match_key}
use cc_otel.Pricing.Basename.{basename_candidates, pick_basename_winner}

-- sqlRegistry
pub record Registry (F : Type 0) : Type 0 where
  pub user_by_key : Table (Entry F)
  pub table_by_key : Table (Entry F)
  pub key_set : List Text
  pub alias_index : Table Text
  pub miss_counts : Table ℕ
  pub miss_order : List Text
  pub last_reload : ℕ

pub record LookupResult (F : Type 0) : Type 0 where
  pub entry : Option (Entry F)  -- `none` for the zero entry with Found = false
  pub kind : MatchKind
  pub matched_key : Text

-- One price of the `pricing:` map of the configuration.
pub record ConfigPrice (F : Type 0) : Type 0 where
  pub input : F
  pub output : F
  pub cache_read : F
  pub cache_creation : F
  pub aliases : List Text

unfoldable pub add_key : Text → List Text → List Text
add_key k ks = if contains k ks then ks else k ∷ ks

abbrev pub miss_limit : ℕ
miss_limit = 64

unfoldable pub bump : Text → Table ℕ → Table ℕ
bump model counts = insert model (elim (lookup model counts) [ none ↦ 1 | some n ↦ n + 1 ]) counts

-- The oldest miss leaves.
abbrev pub oldest : List Text → Text
oldest [] = []
oldest (o ∷ os) = o

abbrev pub all_but_oldest : List Text → List Text
all_but_oldest [] = []
all_but_oldest (o ∷ os) = os

abbrev pub is_miss : MatchKind → Bool
is_miss miss = true
is_miss _ = false

abbrev pub is_empty : List Text → Bool
is_empty [] = true
is_empty (c ∷ cs) = false

abbrev pub has {ℓ} : {A : Type ℓ} → Option A → Bool
has none = false
has (some _) = true

-- The inner loop of `add` in rebuildIndexLocked, over the aliases of an entry.
unfoldable pub add_aliases : Text → List Text → Table Text → Table Text
add_aliases model [] index = index
add_aliases model (a ∷ aliases) index =
    let na = normalize a in
    add_aliases model aliases
      (if text_eq na [] || text_eq na model then index else insert na model index)

module _ {F : Type 0} where
  unfoldable pub user_entry : Text → ConfigPrice F → Entry F
  user_entry key p = record {
    model = key;
    input = p.input;
    output = p.output;
    cache_read = p.cache_read;
    cache_creation = p.cache_creation;
    aliases = p.aliases;
    source = codes "user";
    fetched_at = 0;
    updated_at = 0;
  }

  -- loadUserOverrides, over the map in the order of its visit
  unfoldable pub load_overrides : List (Text × ConfigPrice F) → Table (Entry F) → Table (Entry F)
  load_overrides [] user = user
  load_overrides ((name, p) ∷ rest) user =
      let key = normalize name in
      load_overrides rest (if text_eq key [] then user else insert key (user_entry key p) user)

  -- The loops over one layer of entries.
  unfoldable pub add_keys : Table (Entry F) → List Text → List Text
  add_keys [] ks = ks
  add_keys ((k, e) ∷ layer) ks = add_keys layer (add_key e.model ks)

  unfoldable pub add_layer_aliases : Table (Entry F) → Table Text → Table Text
  add_layer_aliases [] index = index
  add_layer_aliases ((k, e) ∷ layer) index =
      add_layer_aliases layer (add_aliases e.model e.aliases index)

  -- rebuildIndexLocked: the table first, then the user's layer
  unfoldable pub rebuild_index : Registry F → Registry F
  rebuild_index r = record r {
    key_set = add_keys r.user_by_key (add_keys r.table_by_key []);
    alias_index = add_layer_aliases r.user_by_key (add_layer_aliases r.table_by_key []);
  }

  -- The loop of Reload over the rows of the query.
  unfoldable pub collect_rows : List (Entry F) → Table (Entry F) → Table (Entry F)
  collect_rows [] table = table
  collect_rows (e ∷ rows) table = collect_rows rows (insert e.model e table)

  -- Reload at the time `now`, over the rows that the query returned; on an error (`none`) the
  -- registry stays as it is.
  unfoldable pub reload : ℕ → Option (List (Entry F)) → Registry F → Registry F × Bool
  reload now none r = (r, false)
  reload now (some rows) r = (
    record (rebuild_index (record r { table_by_key = collect_rows rows [] })) { last_reload = now },
    true,
  )

  -- NewRegistry: the overrides and the first Reload, whose rows are those of the table once
  -- seedIfEmpty has run; `none` if the query fails.
  unfoldable pub new_registry :
      List (Text × ConfigPrice F) → ℕ → Option (List (Entry F)) → Option (Registry F)
  new_registry pricing now rows =
      let empty : Registry F = record {
        user_by_key = load_overrides pricing [];
        table_by_key = [];
        key_set = [];
        alias_index = [];
        miss_counts = [];
        miss_order = [];
        last_reload = 0;
      } in
      let (r, done) = reload now rows empty in if done then some r else none

  -- resolveLocked
  unfoldable pub resolve : Registry F → Text → Option (Entry F)
  resolve r canonical = elim (lookup canonical r.user_by_key) [
    | some e ↦ some e
    | none ↦ lookup canonical r.table_by_key
  ]

  unfoldable pub key_source_rank : Registry F → Text → ℕ
  key_source_rank r key = elim (resolve r key) [ none ↦ 0 | some e ↦ source_rank e.source ]

  -- recordMiss
  unfoldable pub record_miss : Text → Registry F → Registry F
  record_miss model r =
      if has (lookup model r.miss_counts)
      then record r { miss_counts = bump model r.miss_counts }
      else let full = leb miss_limit (length r.miss_order) in
        let order = if full then all_but_oldest r.miss_order else r.miss_order in
        let counts = if full then erase (oldest r.miss_order) r.miss_counts else r.miss_counts in
        record r { miss_order = order ++ model ∷ []; miss_counts = bump model counts }

  abbrev pub not_found : LookupResult F
  not_found = record { entry = none; kind = miss; matched_key = [] }

  -- The last resort of Lookup: a miss looks for a candidate by its last segment.
  unfoldable pub by_basename : Registry F → Text → Text × MatchKind → Text × MatchKind
  by_basename r q m =
      if is_miss m.1
      then (let cands = basename_candidates q r.key_set in
          if is_empty cands then m else (pick_basename_winner cands (key_source_rank r), basename))
      else m

  -- The key that matches the normalized name.
  unfoldable pub find_key : Registry F → Text → Text × MatchKind
  find_key r q = by_basename r q (match_key q r.key_set r.alias_index)

  -- The end of Lookup: the entry of the matched key, or a miss, which is recorded.
  unfoldable pub answer : Registry F → Text → Text × MatchKind → LookupResult F × Registry F
  answer r q (canonical, kind) =
      if is_miss kind then (not_found, record_miss q r) else elim (resolve r canonical) [
        | none ↦ (not_found, record_miss q r)
        | some e ↦ (record { entry = some e; kind = kind; matched_key = canonical }, r)
      ]

  -- Lookup
  unfoldable pub lookup_model : Text → Registry F → LookupResult F × Registry F
  lookup_model model r =
      let q = normalize model in if text_eq q [] then (not_found, r) else answer r q (find_key r q)

-- Calc of the registry: the cost, and the registry with a miss recorded.
unfoldable pub registry_calc :
    (fl : Floats) → Text → ℤ → ℤ → ℤ → ℤ → Registry fl.F → fl.F × Registry fl.F
registry_calc fl model input output cache_read cache_create r =
    let (res, r') = lookup_model model r in
    (
      elim res.entry [
        | none ↦ fl.zero
        | some e ↦ entry_calc fl e input output cache_read cache_create
      ],
      r',
    )
