-- ===== src/Receiver/Codex/Tracker/Reachable.antt =====
-- The states that the tracker can reach, and what holds of each of them.
use cc_otel.Prelude.{
  ℕ, ◌-◌, ◌≤◌, true, none, some, List, [], ◌∷◌, ◌++◌, ◌≡◌, refl, arith, take, subst, sym, length,
  length-drop, inl, inr, Bool-cases,
}
use cc_otel.Prelude.Int.{ℤ}
use cc_otel.Prelude.Text.{Text, text_eq}
use cc_otel.Prelude.Table.{Table, lookup, insert, erase}
use cc_otel.Tokens.{sub64}
use cc_otel.Receiver.Attrs.{is_set}
use cc_otel.Receiver.Codex.Tracker.{
  SpanInfo, TurnTtftObs, CodexTracker, new_tracker, record_request, stash_turn_ttft,
  drain_turn_ttft, remove_request, evict_before, evict_old, cap_spans, evicted_spans, erase_all,
  span_key, set_stash, newest_obs, fresh_obs, stashed, left_over, turn_ttft_key, sort_spans,
  drain_list, span_ttl,
}
use cc_otel.Receiver.Codex.Tracker.Lookups.{AllKeyed}
use cc_otel.Receiver.Codex.Tracker.Capacity.{
  Unique, count_key, record_request-Unique, length-record_request, erase-Unique, length-erase_le,
}

-- The calls that the handler makes.
pub data TrackerCall : Type 0 where
  request_recorded : Text → SpanInfo → TrackerCall
  observed : ℤ → Text → Text → ℤ → ℤ → TrackerCall
  drained : Text → Text → ℤ → TrackerCall
  removed : Text → TrackerCall

unfoldable pub call_tracker : TrackerCall → CodexTracker → CodexTracker
call_tracker (request_recorded span_id info) t = (record_request span_id info t).1
call_tracker (observed now conversation_id model ts ms) t =
    stash_turn_ttft now conversation_id model ts ms t
call_tracker (drained conversation_id model anchor) t =
    (drain_turn_ttft conversation_id model anchor t).1
call_tracker (removed key) t = remove_request key t

pub data Reachable : CodexTracker → Type 0 where
  fresh : Reachable new_tracker
  next : {t : CodexTracker} → Reachable t → (c : TrackerCall) → Reachable (call_tracker c t)

-- A key of the stash has from one to eight observations.
unfoldable pub StashFits : Table (List TurnTtftObs) → Type 0
StashFits [] = Unit
StashFits ((k, os) ∷ m) = (1 ≤ length os) × (length os ≤ 8) × StashFits m

pub record TrackerFits (t : CodexTracker) : Type 0 where
  pub keyed : AllKeyed t.spans
  pub unique : Unique t.spans
  pub within_cap : length t.spans ≤ 10001
  pub stash_fits : StashFits t.turn_ttft

erase-AllKeyed : (k : Text) (m : Table SpanInfo) → AllKeyed m → AllKeyed (erase k m)
unfolding erase AllKeyed
erase-AllKeyed k [] h = tt
erase-AllKeyed k ((j, i) ∷ m) h = ground (arith, erase-AllKeyed k m h.1, h.0)

insert-AllKeyed :
    (k : Text) (i : SpanInfo) (m : Table SpanInfo)
    → is_set k ≡ true
    → AllKeyed m
    → AllKeyed (insert k i m)
unfolding insert AllKeyed
insert-AllKeyed k i [] s h = (s, tt)
insert-AllKeyed k i ((j, l) ∷ m) s h = ground (arith, insert-AllKeyed k i m s h.1, h.0, h.1)

erase_all-AllKeyed : (es m : Table SpanInfo) → AllKeyed m → AllKeyed (erase_all es m)
unfolding erase_all
erase_all-AllKeyed [] m h = h
erase_all-AllKeyed ((k, i) ∷ es) m h = erase_all-AllKeyed es (erase k m) (erase-AllKeyed k m h)

evict_before-AllKeyed :
    (cutoff : ℤ) (m : Table SpanInfo) → AllKeyed m → AllKeyed (evict_before cutoff m)
unfolding evict_before AllKeyed
evict_before-AllKeyed cutoff [] h = tt
evict_before-AllKeyed cutoff ((j, i) ∷ m) h =
    ground (arith, evict_before-AllKeyed cutoff m h.1, h.0)

cap_spans-AllKeyed : (m : Table SpanInfo) → AllKeyed m → AllKeyed (cap_spans m)
unfolding cap_spans
cap_spans-AllKeyed m h =
    ground (arith, h, erase_all-AllKeyed (take (length m - 10000) (sort_spans m)) m h)

evict_old-AllKeyed : (start : ℤ) (m : Table SpanInfo) → AllKeyed m → AllKeyed (evict_old start m)
unfolding evict_old
evict_old-AllKeyed start m h = ground (arith, h, evict_before-AllKeyed (sub64 start span_ttl) m h)

span_key_set : (span_id : Text) (n : ℕ) → is_set (span_key span_id n).0 ≡ true
unfolding span_key
span_key_set [] n = refl
span_key_set (c ∷ span_id) n = refl

record_request-AllKeyed :
    (span_id : Text) (info : SpanInfo) (t : CodexTracker)
    → AllKeyed t.spans
    → AllKeyed (record_request span_id info t).1.spans
unfolding record_request evicted_spans
record_request-AllKeyed span_id info t h =
    insert-AllKeyed _ _ _ (span_key_set span_id t.next_fallback)
      (cap_spans-AllKeyed _ (evict_old-AllKeyed info.start_nanos t.spans h))

erase-StashFits : (k : Text) (m : Table (List TurnTtftObs)) → StashFits m → StashFits (erase k m)
unfolding erase StashFits
erase-StashFits k [] h = tt
erase-StashFits k ((j, os) ∷ m) h = ground (arith, erase-StashFits k m h.2, h.0, h.1)

insert-StashFits :
    (k : Text) (os : List TurnTtftObs) (m : Table (List TurnTtftObs))
    → 1 ≤ length os
    → length os ≤ 8
    → StashFits m
    → StashFits (insert k os m)
unfolding insert StashFits
insert-StashFits k os [] lo hi h = (lo, hi, tt)
insert-StashFits k os ((j, ps) ∷ m) lo hi h =
    ground (arith, insert-StashFits k os m lo hi h.2, lo, hi, h.0, h.1, h.2)

set_stash-StashFits :
    (k : Text) (os : List TurnTtftObs) (t : CodexTracker)
    → length os ≤ 8
    → StashFits t.turn_ttft
    → StashFits (set_stash k os t).turn_ttft
unfolding set_stash
set_stash-StashFits k [] t hi h = erase-StashFits k t.turn_ttft h
set_stash-StashFits k (o ∷ os) t hi h = insert-StashFits k (o ∷ os) t.turn_ttft (omega arith) hi h

spans-set_stash :
    (k : Text) (os : List TurnTtftObs) (t : CodexTracker) → (set_stash k os t).spans ≡ t.spans
unfolding set_stash
spans-set_stash k [] t = refl
spans-set_stash k (o ∷ os) t = refl

length-newest_obs : (os : List TurnTtftObs) → length (newest_obs os) ≤ 8
unfolding newest_obs
length-newest_obs os = ground (arith, length-drop (length os - 8) os)

length-left_over : (lo : ℤ) (os : List TurnTtftObs) → length (left_over lo os) ≤ length os
unfolding left_over
length-left_over lo [] = omega arith
length-left_over lo (o ∷ os) = ground (arith, length-left_over lo os)

length-lookup :
    (k : Text) (m : Table (List TurnTtftObs))
    → StashFits m
    → length (elim (lookup k m) [ none ↦ [] | some os ↦ os ]) ≤ 8
unfolding StashFits lookup
length-lookup k [] h = omega arith
length-lookup k ((j, ps) ∷ m) h = elim (Bool-cases (text_eq j k)) [
  | inl e ↦ rw (lookup, e) h.1
  | inr e ↦ rw (lookup, e) (length-lookup k m h.2)
]

length-stashed : (k : Text) (t : CodexTracker) → StashFits t.turn_ttft → length (stashed k t) ≤ 8
unfolding stashed
length-stashed k t h = length-lookup k t.turn_ttft h

drain_list-StashFits :
    (key : Text) (anchor : ℤ) (os : List TurnTtftObs) (t : CodexTracker)
    → length os ≤ 8
    → StashFits t.turn_ttft
    → StashFits (drain_list key anchor os t).1.turn_ttft
unfolding drain_list
drain_list-StashFits key anchor [] t hi h = h
drain_list-StashFits key anchor (o ∷ os) t hi h =
    let left = left_over anchor (o ∷ os) in
    set_stash-StashFits key left t (omega (arith, length-left_over anchor (o ∷ os), hi)) h

spans-drain_list :
    (key : Text) (anchor : ℤ) (os : List TurnTtftObs) (t : CodexTracker)
    → (drain_list key anchor os t).1.spans ≡ t.spans
unfolding drain_list
spans-drain_list key anchor [] t = refl
spans-drain_list key anchor (o ∷ os) t = spans-set_stash key (left_over anchor (o ∷ os)) t

-- The stash alone changed.
same_spans :
    (t t' : CodexTracker)
    → t'.spans ≡ t.spans
    → StashFits t'.turn_ttft
    → TrackerFits t
    → TrackerFits t'
same_spans t t' e s f = record {
  keyed = subst AllKeyed (sym e) f.keyed;
  unique = subst Unique (sym e) f.unique;
  within_cap = subst (λ m. length m ≤ 10001) (sym e) f.within_cap;
  stash_fits = s;
}

removed-TrackerFits :
    (key : Text) (t : CodexTracker) → TrackerFits t → TrackerFits (remove_request key t)
unfolding remove_request
removed-TrackerFits [] t f = f
removed-TrackerFits (c ∷ key) t f = record {
  keyed = erase-AllKeyed (c ∷ key) t.spans f.keyed;
  unique = erase-Unique (c ∷ key) t.spans f.unique;
  within_cap = omega (arith, length-erase_le (c ∷ key) t.spans, f.within_cap);
  stash_fits = f.stash_fits;
}

call_tracker-TrackerFits :
    (c : TrackerCall) (t : CodexTracker) → TrackerFits t → TrackerFits (call_tracker c t)
unfolding call_tracker record_request stash_turn_ttft drain_turn_ttft
call_tracker-TrackerFits (request_recorded span_id info) t f = record {
  keyed = record_request-AllKeyed span_id info t f.keyed;
  unique = record_request-Unique span_id info t f.unique;
  within_cap = length-record_request span_id info t f.unique;
  stash_fits = f.stash_fits;
}
call_tracker-TrackerFits (observed now conversation_id model ts ms) t f =
    let key = turn_ttft_key conversation_id model in
    let obs : TurnTtftObs = record { ts_unix_nano = ts; ms = ms } in
    let os = fresh_obs now (stashed key t ++ obs ∷ []) in
    same_spans t _ (spans-set_stash key (newest_obs os) t)
      (set_stash-StashFits key (newest_obs os) t (length-newest_obs os) f.stash_fits) f
call_tracker-TrackerFits (drained conversation_id model anchor) t f =
    let key = turn_ttft_key conversation_id model in
    same_spans t _ (spans-drain_list key anchor (stashed key t) t)
      (drain_list-StashFits key anchor (stashed key t) t (length-stashed key t f.stash_fits)
        f.stash_fits)
      f
call_tracker-TrackerFits (removed key) t f = removed-TrackerFits key t f

-- Whatever records arrive, the tracker has at most 10001 pending requests, one for each key, and
-- no key without a name; and the stash of a key has from one to eight observations.
pub Reachable-TrackerFits : {t : CodexTracker} → Reachable t → TrackerFits t
unfolding AllKeyed StashFits count_key
Reachable-TrackerFits fresh = record {
  keyed = tt;
  unique = λ k. ground arith;
  within_cap = omega arith;
  stash_fits = tt;
}
Reachable-TrackerFits (next {t} r c) = call_tracker-TrackerFits c t (Reachable-TrackerFits r)
