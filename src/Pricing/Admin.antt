-- ===== src/Pricing/Admin.antt =====
-- internal/pricing/registry.go, List: the representative of the keys that share a last segment,
-- and the page that is cut out of the sorted entries; internal/api/handler.go, PricingCollection:
-- the page that a request asks for.
pub mod Listing
pub mod Pages
use cc_otel.Prelude.{
  ℕ, Bool, true, false, not, ltb, ◌||◌, ◌&&◌, ◌==◌, if◌then◌else◌, Option, none, some, List, [],
  ◌∷◌, take, drop, length, ◌-◌,
}
use cc_otel.Prelude.Int.{ℤ, pos, pos_part, ltb_ℤ}
use cc_otel.Prelude.Text.{Text, text_eq, count, contains_byte, after_last}
use cc_otel.Prelude.Table.{contains}
use cc_otel.Tokens.{add64, sub64, mul64}
use cc_otel.Pricing.Name.{normalize}
use cc_otel.Pricing.Price.{Entry, display_rank}

-- a != b on bool
abbrev differ : Bool → Bool → Bool
differ true b = not b
differ false b = b

-- basenameOf
unfoldable pub basename_of : Text → Text
basename_of id = if contains_byte id b'/' then normalize (after_last id b'/') else normalize id

any_local : List Text → List Text → Bool
any_local [] local = false
any_local (a ∷ aliases) local = contains (normalize a) local || any_local aliases local

module _ {F : Type 0} where
  unfoldable pub rep_better : Entry F → Entry F → Bool
  rep_better a b =
      let ab = not (contains_byte a.model b'/') in
      let bb = not (contains_byte b.model b'/') in
      let sa = count a.model b'/' in
      let sb = count b.model b'/' in
      if differ ab bb
      then ab
      else if not (sa == sb)
      then ltb sa sb
      else ltb (display_rank b.source) (display_rank a.source)

  -- EntryIsLocal; the set of local names is a list, empty where the map is nil
  unfoldable pub entry_is_local : Entry F → List Text → Bool
  unfolding any_local
  entry_is_local e local =
      let k = normalize e.model in
      let b = basename_of e.model in
      contains k local || (not (text_eq b k) && contains b local) || any_local e.aliases local

-- entries[start:end] over a list of that length; `none` is the panic of bounds out of range.
unfoldable pub slice_bounds : ℤ → ℤ → ℕ → Option (ℕ × ℕ)
slice_bounds start end_ total =
    if ltb_ℤ start (pos 0) || ltb_ℤ end_ start || ltb_ℤ (pos total) end_
    then none
    else some (pos_part start, pos_part end_)

-- The end of List, on the int64 fields Page and PageSize of the filter.
unfoldable pub page_bounds : ℤ → ℤ → ℕ → Option (ℕ × ℕ)
unfolding slice_bounds
page_bounds page page_size total =
    let page' = if ltb_ℤ page (pos 1) then pos 1 else page in
    let size = if ltb_ℤ (pos 0) page_size then page_size else pos 50 in
    let from = mul64 (sub64 page' (pos 1)) size in
    let start = if ltb_ℤ (pos total) from then pos total else from in
    let to = add64 start size in
    let end_ = if ltb_ℤ (pos total) to then pos total else to in slice_bounds start end_ total

unfoldable pub list_page {ℓ} : {A : Type ℓ} → ℤ → ℤ → List A → Option (List A)
list_page page page_size entries = elim (page_bounds page page_size (length entries)) [
  | none ↦ none
  | some bounds ↦ some (take (bounds.1 - bounds.0) (drop bounds.0 entries))
]

-- The clamps of PricingCollection on the two numbers of the query.
unfoldable pub requested_page {ℓ} : {A : Type ℓ} → ℤ → ℤ → List A → Option (List A)
unfolding list_page
requested_page page page_size entries =
    let page' = if ltb_ℤ page (pos 1) then pos 1 else page in
    let size =
      if ltb_ℤ page_size (pos 1)
      then pos 1
      else if ltb_ℤ (pos 200) page_size
      then pos 200
      else page_size in
    list_page page' size entries
