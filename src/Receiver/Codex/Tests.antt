-- ===== src/Receiver/Codex/Tests.antt =====
-- A tracker with one request.
use cc_otel.Prelude.{[], ◌∷◌, refl}
use cc_otel.Prelude.Int.{pos, int_laws}
use cc_otel.Prelude.Text.{codes}
use cc_otel.Receiver.Codex.Tracker.{
  CodexTracker, SpanInfo, new_tracker, lookup_request, drain_turn_ttft, turn_ttft_key, stashed,
}
use cc_otel.Receiver.Codex.Tracker.Lookups.{AllKeyed, Answers, lookup_request-Answers, MayComplete}
use cc_otel.Receiver.Codex.Tracker.Reachable.{
  request_recorded, call_tracker, fresh, next, TrackerFits, Reachable-TrackerFits,
}
use cc_otel.Receiver.Codex.Tracker.Stash.{Drained, drain_turn_ttft-Drained}

abbrev info : SpanInfo
info = record {
  row_id = pos 1;
  session_id = codes "s";
  model = codes "gpt-5";
  start_nanos = pos 100;
}

Reachable-TrackerFits_example :
    TrackerFits (call_tracker (request_recorded (codes "span") info) new_tracker)
Reachable-TrackerFits_example =
    Reachable-TrackerFits (next fresh (request_recorded (codes "span") info))

abbrev tracker : CodexTracker
tracker = record {
  spans = (codes "span", info) ∷ [];
  next_fallback = 0;
  turn_ttft =
      (
        turn_ttft_key (codes "c") (codes "gpt-5"),
        record { ts_unix_nano = pos 200; ms = pos 3 } ∷ [],
      )
      ∷ [];
}

lookup_request-Answers_example :
    Answers
      (MayComplete (codes "s") (codes "gpt-5") (pos 150) (pos 600))
      (codes "other")
      tracker.spans
      (lookup_request (codes "other") (codes "s") (codes "gpt-5") (pos 150) (pos 600) tracker)
unfolding AllKeyed
lookup_request-Answers_example =
    lookup_request-Answers (codes "other") (codes "s") (codes "gpt-5") (pos 150) (pos 600) tracker
      (refl, tt) refl (omega int_laws)

drain_turn_ttft-Drained_example :
    let key = turn_ttft_key (codes "c") (codes "gpt-5") in
    let (out, t') = drain_turn_ttft (codes "c") (codes "gpt-5") (pos 150) tracker in
    Drained (pos 150) (stashed key tracker) out (stashed key t')
drain_turn_ttft-Drained_example =
    drain_turn_ttft-Drained (codes "c") (codes "gpt-5") (pos 150) tracker (omega int_laws)
