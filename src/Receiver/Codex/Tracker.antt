-- ===== src/Receiver/Codex/Tracker.antt =====
-- internal/receiver/codex_parser.go: codexSpanTracker, which correlates a request with the records
-- that complete it, and keeps the time-to-first-token observations that arrive before their row.
pub mod Stash
pub mod Lookups
pub mod Starts
pub mod Capacity
pub mod Reachable
use cc_otel.Prelude.{
  ℕ, suc, ◌+◌, ◌-◌, ◌%◌, ◌/◌, ◌*◌, Bool, true, false, not, Option, none, some, List, [], ◌∷◌, ◌++◌,
  ltb, leb, ◌&&◌, ◌||◌, if◌then◌else◌, length, take, drop,
}
use cc_otel.Prelude.Int.{ℤ, pos, negsuc, pos_part, ltb_ℤ, eqb_ℤ}
use cc_otel.Prelude.Text.{Text, codes, text_eq}
use cc_otel.Prelude.Table.{Table, lookup, insert, erase}
use cc_otel.Tokens.{sub64, add64, mul64}
use cc_otel.Receiver.Decimal.{format_nat}
use cc_otel.Receiver.Attrs.{is_set}

-- turnTTFTObs
pub record TurnTtftObs : Type 0 where
  pub ts_unix_nano : ℤ
  pub ms : ℤ

pub record SpanInfo : Type 0 where
  pub row_id : ℤ
  pub session_id : Text
  pub model : Text
  pub start_nanos : ℤ

abbrev pub no_span : SpanInfo
no_span = record { row_id = pos 0; session_id = []; model = []; start_nanos = pos 0 }

pub record CodexTracker : Type 0 where
  pub spans : Table SpanInfo
  pub next_fallback : ℕ
  pub turn_ttft : Table (List TurnTtftObs)

abbrev pub new_tracker : CodexTracker
new_tracker = record { spans = []; next_fallback = 0; turn_ttft = [] }

-- A request starts its reported duration before it was observed, unless that is no duration or
-- reaches behind the epoch.
unfoldable pub codex_request_start_nanos : ℤ → ℤ → ℤ
codex_request_start_nanos observed reported_ms =
    if not (ltb_ℤ (pos 0) observed)
    then pos 0
    else if not (ltb_ℤ (pos 0) reported_ms)
    then observed
    else if ltb_ℤ (pos (pos_part observed / 1000000)) reported_ms
    then observed
    else sub64 observed (mul64 reported_ms (pos 1000000))

-- 10 * time.Minute, 8 and time.Hour
abbrev pub turn_ttft_stash_ttl : ℤ
turn_ttft_stash_ttl = pos 600000000000

abbrev pub turn_ttft_stash_per_key : ℕ
turn_ttft_stash_per_key = 8

abbrev pub hour : ℤ
hour = pos 3600000000000

unfoldable pub turn_ttft_key : Text → Text → Text
turn_ttft_key conversation_id model = conversation_id ++ (0 ∷ model)

unfoldable pub fresh_obs : ℤ → List TurnTtftObs → List TurnTtftObs
fresh_obs now [] = []
fresh_obs now (o ∷ os) =
    let rest = fresh_obs now os in
    if ltb_ℤ (sub64 now o.ts_unix_nano) turn_ttft_stash_ttl then o ∷ rest else rest

unfoldable pub newest_obs : List TurnTtftObs → List TurnTtftObs
newest_obs os =
    if ltb turn_ttft_stash_per_key (length os)
    then drop (length os - turn_ttft_stash_per_key) os
    else os

unfoldable pub stashed : Text → CodexTracker → List TurnTtftObs
unfolding lookup
stashed key t = elim (lookup key t.turn_ttft) [ none ↦ [] | some os ↦ os ]

-- The list of a key, which is deleted with its last observation.
unfoldable pub set_stash : Text → List TurnTtftObs → CodexTracker → CodexTracker
unfolding insert erase
set_stash key [] t = record {
  spans = t.spans;
  next_fallback = t.next_fallback;
  turn_ttft = erase key t.turn_ttft;
}
set_stash key (o ∷ os) t = record {
  spans = t.spans;
  next_fallback = t.next_fallback;
  turn_ttft = insert key (o ∷ os) t.turn_ttft;
}

unfoldable pub stash_turn_ttft : ℤ → Text → Text → ℤ → ℤ → CodexTracker → CodexTracker
unfolding turn_ttft_key stashed fresh_obs newest_obs set_stash
stash_turn_ttft now conversation_id model ts ms t =
    let key = turn_ttft_key conversation_id model in
    let obs : TurnTtftObs = record { ts_unix_nano = ts; ms = ms } in
    set_stash key (newest_obs (fresh_obs now (stashed key t ++ obs ∷ []))) t

-- An observation of the hour that begins with the row.
unfoldable pub belongs : ℤ → TurnTtftObs → Bool
belongs lo o = not (ltb_ℤ o.ts_unix_nano lo) && not (ltb_ℤ (add64 lo hour) o.ts_unix_nano)

unfoldable pub belonging : ℤ → List TurnTtftObs → List TurnTtftObs
belonging lo [] = []
belonging lo (o ∷ os) = let rest = belonging lo os in if belongs lo o then o ∷ rest else rest

unfoldable pub left_over : ℤ → List TurnTtftObs → List TurnTtftObs
left_over lo [] = []
left_over lo (o ∷ os) = let rest = left_over lo os in if belongs lo o then rest else o ∷ rest

-- sort.Slice by the time
unfoldable pub insert_obs : TurnTtftObs → List TurnTtftObs → List TurnTtftObs
insert_obs o [] = o ∷ []
insert_obs o (p ∷ os) =
    let rest = insert_obs o os in
    if ltb_ℤ p.ts_unix_nano o.ts_unix_nano then p ∷ rest else o ∷ p ∷ os

unfoldable pub sort_obs : List TurnTtftObs → List TurnTtftObs
unfolding insert_obs
sort_obs [] = []
sort_obs (o ∷ os) = insert_obs o (sort_obs os)

unfoldable pub drain_list :
    Text → ℤ → List TurnTtftObs → CodexTracker → List TurnTtftObs × CodexTracker
unfolding belonging left_over sort_obs set_stash
drain_list key anchor [] t = ([], t)
drain_list key anchor (o ∷ os) t =
    (sort_obs (belonging anchor (o ∷ os)), set_stash key (left_over anchor (o ∷ os)) t)

unfoldable pub drain_turn_ttft : Text → Text → ℤ → CodexTracker → List TurnTtftObs × CodexTracker
drain_turn_ttft conversation_id model anchor t =
    let key = turn_ttft_key conversation_id model in drain_list key anchor (stashed key t) t

-- 30 * time.Minute
abbrev pub span_ttl : ℤ
span_ttl = pos 1800000000000

abbrev pub codex_span_tracker_max_entries : ℕ
codex_span_tracker_max_entries = 10000

unfoldable pub evict_before : ℤ → Table SpanInfo → Table SpanInfo
evict_before cutoff [] = []
evict_before cutoff ((k, i) ∷ m) =
    let rest = evict_before cutoff m in
    if ltb_ℤ (pos 0) i.start_nanos && ltb_ℤ i.start_nanos cutoff then rest else (k, i) ∷ rest

-- sort.Slice by the start
unfoldable pub insert_span : Text × SpanInfo → Table SpanInfo → Table SpanInfo
insert_span e [] = e ∷ []
insert_span e (f ∷ m) =
    let rest = insert_span e m in
    if ltb_ℤ f.1.start_nanos e.1.start_nanos then f ∷ rest else e ∷ f ∷ m

unfoldable pub sort_spans : Table SpanInfo → Table SpanInfo
unfolding insert_span
sort_spans [] = []
sort_spans (e ∷ m) = insert_span e (sort_spans m)

unfoldable pub erase_all : Table SpanInfo → Table SpanInfo → Table SpanInfo
unfolding erase
erase_all [] m = m
erase_all ((k, i) ∷ es) m = erase_all es (erase k m)

unfoldable pub cap_spans : Table SpanInfo → Table SpanInfo
unfolding sort_spans erase_all
cap_spans m =
    if ltb codex_span_tracker_max_entries (length m)
    then erase_all (take (length m - codex_span_tracker_max_entries) (sort_spans m)) m
    else m

-- What a request's new facts keep of the entry that its key has.
unfoldable pub merged_span : SpanInfo → SpanInfo → SpanInfo
merged_span existing info = record {
  row_id = if eqb_ℤ info.row_id (pos 0) then existing.row_id else info.row_id;
  session_id = if is_set info.session_id then info.session_id else existing.session_id;
  model = if is_set info.model then info.model else existing.model;
  start_nanos =
      if not (ltb_ℤ (pos 0) info.start_nanos)
        || (ltb_ℤ (pos 0) existing.start_nanos && ltb_ℤ existing.start_nanos info.start_nanos)
      then existing.start_nanos
      else info.start_nanos;
}

unfoldable pub merged_with : Option SpanInfo → SpanInfo → SpanInfo
unfolding merged_span
merged_with none info = info
merged_with (some existing) info = merged_span existing info

unfoldable pub evict_old : ℤ → Table SpanInfo → Table SpanInfo
evict_old start_nanos m =
    let cutoff = sub64 start_nanos span_ttl in
    if ltb_ℤ (pos 0) cutoff then evict_before cutoff m else m

-- The spans that one call leaves before it adds its own.
unfoldable pub evicted_spans : ℤ → Table SpanInfo → Table SpanInfo
evicted_spans start_nanos m = cap_spans (evict_old start_nanos m)

-- A request without a span id gets a number; the counter is a uint64.
unfoldable pub span_key : Text → ℕ → Text × ℕ
unfolding format_nat
span_key [] next =
    let n = (next + 1) % 18446744073709551616 in (codes "fallback:" ++ format_nat n, n)
span_key (c ∷ span_id) next = (c ∷ span_id, next)

unfoldable pub record_request : Text → SpanInfo → CodexTracker → Text × CodexTracker
record_request span_id info t =
    let kept = evicted_spans info.start_nanos t.spans in
    let (key, next) = span_key span_id t.next_fallback in
    (
      key,
      record {
        spans = insert key (merged_with (lookup key kept) info) kept;
        next_fallback = next;
        turn_ttft = t.turn_ttft;
      },
    )

-- An entry that a record of this session and model, observed at this time, may complete.
unfoldable pub eligible : Text → Text → ℤ → ℤ → SpanInfo → Bool
unfolding text_eq
eligible session_id model observed max_age info =
    ltb_ℤ (pos 0) info.start_nanos
    && not (ltb_ℤ observed info.start_nanos)
    && not (ltb_ℤ info.start_nanos (sub64 observed max_age))
    && (not (is_set session_id) || text_eq info.session_id session_id)
    && (not (is_set model) || text_eq info.model model)

unfoldable pub is_better : (SpanInfo → Bool) → Text × SpanInfo → SpanInfo → Bool
is_better ok best i = ok i && (not (is_set best.0) || ltb_ℤ best.1.start_nanos i.start_nanos)

-- The loop for the newest entry that passes the test, with the best one so far.
unfoldable pub newest : (SpanInfo → Bool) → Table SpanInfo → Text × SpanInfo → Text × SpanInfo
newest ok [] best = best
newest ok ((k, i) ∷ m) best = newest ok m (if is_better ok best i then (k, i) else best)

unfoldable pub newest_request : (SpanInfo → Bool) → Table SpanInfo → Option (Text × SpanInfo)
newest_request ok m =
    let best = newest ok m ([], no_span) in if is_set best.0 then some best else none

unfoldable pub exact_request : (SpanInfo → Bool) → Text → Table SpanInfo → Option (Text × SpanInfo)
unfolding lookup
exact_request ok span_id m =
    if is_set span_id
    then elim (lookup span_id m) [ none ↦ none | some i ↦ if ok i then some (span_id, i) else none ]
    else none

unfoldable pub lookup_request : Text → Text → Text → ℤ → ℤ → CodexTracker → Option (Text × SpanInfo)
lookup_request span_id session_id model observed max_age t =
    if not (ltb_ℤ (pos 0) observed)
    then none
    else let ok = eligible session_id model observed max_age in
      elim (exact_request ok span_id t.spans) [
        | some found ↦ some found
        | none ↦ newest_request ok t.spans
      ]

unfoldable pub remove_request : Text → CodexTracker → CodexTracker
unfolding erase
remove_request key t =
    if is_set key
    then record {
      spans = erase key t.spans;
      next_fallback = t.next_fallback;
      turn_ttft = t.turn_ttft;
    }
    else t
