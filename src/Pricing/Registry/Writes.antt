-- ===== src/Pricing/Registry/Writes.antt =====
-- internal/pricing/registry.go: Upsert and Delete, over the rows of the table model_pricing.
pub mod Effects
use cc_otel.Prelude.{
  ℕ, ◌≡◌, Bool, true, false, ◌||◌, if◌then◌else◌, Option, none, some, List, [], ◌∷◌,
}
use cc_otel.Prelude.Text.{Text, codes, text_eq}
use cc_otel.Pricing.Name.{normalize}
use cc_otel.Pricing.Price.{Floats, Entry}
use cc_otel.Pricing.Registry.{Registry, reload}

pub data WriteError : Type 0 where
  model_required prices_required cache_negative exec_failed reload_failed : WriteError

pub data WriteResult (A : Type 0) : Type 0 where
  done : A → WriteResult A
  failed : WriteError → WriteResult A

-- The loop that cleans the aliases.
unfoldable pub clean_aliases : Text → List Text → List Text
clean_aliases key [] = []
clean_aliases key (a ∷ aliases) =
    let na = normalize a in
    let rest = clean_aliases key aliases in
    if text_eq na [] || text_eq na key then rest else na ∷ rest

unfoldable pub saved_source : Text → Text
saved_source source =
    if text_eq source (codes "openrouter") then codes "openrouter" else codes "manual"

-- The table of the database and the registry in memory.
pub record Store (F : Type 0) : Type 0 where
  pub rows : List (Entry F)
  pub registry : Registry F

-- What a write meets outside: the time, and whether its statement and the query of the Reload
-- behind it succeed.
pub record Outside : Type 0 where
  pub now : ℕ
  pub exec_succeeds : Bool
  pub query_succeeds : Bool

module _ {F : Type 0} where
  -- INSERT … ON CONFLICT(model) DO UPDATE, which leaves fetched_at of an old row
  unfoldable pub upsert_row : Entry F → List (Entry F) → List (Entry F)
  upsert_row e [] = e ∷ []
  upsert_row e (d ∷ rows) =
      let rest = upsert_row e rows in
      if text_eq d.model e.model then record e { fetched_at = d.fetched_at } ∷ rows else d ∷ rest

  -- DELETE … WHERE model = ?
  unfoldable pub delete_row : Text → List (Entry F) → List (Entry F)
  delete_row key [] = []
  delete_row key (d ∷ rows) =
      let rest = delete_row key rows in if text_eq d.model key then rest else d ∷ rest

  unfoldable pub queried : Bool → List (Entry F) → Option (List (Entry F))
  queried true rows = some rows
  queried false rows = none

  -- The Reload behind a statement that succeeded.
  unfoldable pub reload_store : Outside → List (Entry F) → Registry F → Store F × Bool
  unfolding queried
  reload_store o rows r =
      let (r', reloaded) = reload o.now (queried o.query_succeeds rows) r in
      (record { rows = rows; registry = r' }, reloaded)

  -- Delete
  unfoldable pub delete_model : Outside → Text → Store F → Store F × WriteResult (Unit {0})
  delete_model o model s =
      let key = normalize model in
      let (s', reloaded) = reload_store o (delete_row key s.rows) s.registry in
      if text_eq key []
      then (s, failed model_required)
      else if o.exec_succeeds
      then (s', if reloaded then done tt else failed reload_failed)
      else (s, failed exec_failed)

-- The row that Upsert writes.
unfoldable pub saved_entry : {F : Type 0} → ℕ → Entry F → Entry F
saved_entry now e = record {
  model = normalize e.model;
  input = e.input;
  output = e.output;
  cache_read = e.cache_read;
  cache_creation = e.cache_creation;
  aliases = clean_aliases (normalize e.model) e.aliases;
  source = saved_source e.source;
  fetched_at = now;
  updated_at = now;
}

-- Upsert; the entry it returns has no fetched_at.
unfoldable pub upsert :
    (fl : Floats) → Outside → Entry fl.F → Store fl.F → Store fl.F × WriteResult (Entry fl.F)
upsert fl o e s =
    let saved = saved_entry o.now e in
    let (s', reloaded) = reload_store o (upsert_row saved s.rows) s.registry in
    if text_eq (normalize e.model) []
    then (s, failed model_required)
    else if fl.at_most_zero e.input || fl.at_most_zero e.output
    then (s, failed prices_required)
    else if fl.is_negative e.cache_read || fl.is_negative e.cache_creation
    then (s, failed cache_negative)
    else if o.exec_succeeds
    then (s', if reloaded then done (record saved { fetched_at = 0 }) else failed reload_failed)
    else (s, failed exec_failed)
