-- ===== src/Pricing/Basename.antt =====
-- internal/pricing/match.go: the fallback that finds a provider's key by its last segment.
pub mod Winner
pub mod Candidates
use cc_otel.Prelude.{ℕ, Bool, true, false, ◌&&◌, not, ltb, ◌==◌, if◌then◌else◌, List, [], ◌∷◌}
use cc_otel.Prelude.Text.{Text, text_eq, text_lt, count, contains_byte, after_last}

-- The tests of the loop over the keys: not empty, a '/' in it, and q behind the last one.
unfoldable pub is_candidate : Text → Text → Bool
unfolding contains_byte after_last text_eq
is_candidate q k =
    if text_eq k []
    then false
    else if not (contains_byte k b'/')
    then false
    else text_eq (after_last k b'/') q

unfoldable pub collect : Text → List Text → List Text
unfolding is_candidate
collect q [] = []
collect q (k ∷ ks) = let rest = collect q ks in if is_candidate q k then k ∷ rest else rest

unfoldable pub sort_insert : Text → List Text → List Text
unfolding text_lt
sort_insert k [] = k ∷ []
sort_insert k (j ∷ js) = let rest = sort_insert k js in if text_lt j k then j ∷ rest else k ∷ j ∷ js

-- sort.Strings
unfoldable pub sort_strings : List Text → List Text
unfolding sort_insert
sort_strings [] = []
sort_strings (k ∷ ks) = sort_insert k (sort_strings ks)

unfoldable pub basename_candidates : Text → List Text → List Text
unfolding collect sort_strings contains_byte
basename_candidates q keys = if contains_byte q b'/' then [] else sort_strings (collect q keys)

unfoldable pub basename_candidate_less : Text → Text → (Text → ℕ) → Bool
unfolding count text_lt
basename_candidate_less a b source_rank =
    let sa = count a b'/' in
    let sb = count b b'/' in
    if not (sa == sb)
    then ltb sa sb
    else let ra = source_rank a in
      let rb = source_rank b in if not (ra == rb) then ltb rb ra else text_lt a b

unfoldable pub pick_from : Text → List Text → (Text → ℕ) → Text
pick_from best [] source_rank = best
pick_from best (c ∷ cs) source_rank =
    pick_from
      (if text_eq best []
        then c
        else if basename_candidate_less c best source_rank
        then c
        else best)
      cs source_rank

unfoldable pub pick_basename_winner : List Text → (Text → ℕ) → Text
unfolding pick_from
pick_basename_winner candidates source_rank = pick_from [] candidates source_rank
