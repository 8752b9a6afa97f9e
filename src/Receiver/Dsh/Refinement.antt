-- ===== src/Receiver/Dsh/Refinement.antt =====
-- The tracker's contract: a partial function from steps to timings, which forgets the order of the
-- entries and everything about how they are stored.
use cc_otel.Prelude.{
  true, Option, none, some, List, [], ◌∷◌, ◌≡◌, refl, arith, if◌then◌else◌, ap, Option-cases, inl,
  inr, ◌∙◌, Bool-cases, sym,
}
use cc_otel.Prelude.Int.{ℤ, pos, eqb_ℤ}
use cc_otel.Receiver.Dsh.{
  StepKey, StepTiming, Steps, step_key_eq, find_step, evict, note_start, note_first_token,
  take_step,
}
use cc_otel.Receiver.Dsh.Steps.{
  Distinct, kept_timing, find_step-delete_step, find_step-put_step, find_step-evict,
  put_step-Distinct, delete_step-Distinct, evict-Distinct, step_key_eq_iff,
}

-- The calls that the handler makes, each with the clock's reading where it is read.
pub data StepCall : Type 0 where
  started : ℤ → StepKey → ℤ → StepCall
  streamed : ℤ → StepKey → ℤ → StepCall
  closed : StepKey → StepCall

unfoldable call_steps : StepCall → Steps → Option StepTiming × Steps
call_steps (started now k nanos) s = (none, note_start now k nanos s)
call_steps (streamed now k nanos) s = (none, note_first_token now k nanos s)
call_steps (closed k) s = take_step k s

-- The timings that a sequence of calls hands out.
unfoldable pub run_steps : List StepCall → Steps → List (Option StepTiming)
unfolding call_steps
run_steps [] s = []
run_steps (c ∷ cs) s = let (t, s') = call_steps c s in t ∷ run_steps cs s'

abbrev pub Timings : Type 0
Timings = StepKey → Option StepTiming

-- The first token of a step counts, and only while the step is open.
unfoldable pub streamed_timing : ℤ → ℤ → Option StepTiming → Option StepTiming
streamed_timing now nanos none = none
streamed_timing now nanos (some t) =
    if eqb_ℤ t.first_token_nanos (pos 0)
    then some (record { start_nanos = t.start_nanos; first_token_nanos = nanos; seen = now })
    else some t

unfoldable pub call_timings : StepCall → Timings → Option StepTiming × Timings
call_timings (started now k nanos) m = (
  none,
  λ j.
      if step_key_eq k j
      then some (record { start_nanos = nanos; first_token_nanos = pos 0; seen = now })
      else kept_timing now (m j),
)
call_timings (streamed now k nanos) m =
    (none, λ j. if step_key_eq k j then streamed_timing now nanos (m j) else m j)
call_timings (closed k) m = (m k, λ j. if step_key_eq k j then none else m j)

unfoldable pub run_timings : List StepCall → Timings → List (Option StepTiming)
unfolding call_timings
run_timings [] m = []
run_timings (c ∷ cs) m = let (t, m') = call_timings c m in t ∷ run_timings cs m'

unfoldable Stands : Steps → Timings → Type 0
Stands s m = Distinct s × ((j : StepKey) → find_step j s ≡ m j)

same_value : {A : Type 0} (m : StepKey → A) (k j : StepKey) → step_key_eq k j ≡ true → m j ≡ m k
same_value m k j h = sym (ap m ((step_key_eq_iff k j).0 h))

abbrev opened : ℤ → ℤ → StepTiming
opened now nanos = record { start_nanos = nanos; first_token_nanos = pos 0; seen = now }

abbrev streamed_once : ℤ → ℤ → StepTiming → StepTiming
streamed_once now nanos t = record {
  start_nanos = t.start_nanos;
  first_token_nanos = nanos;
  seen = now;
}

started-Stands :
    (now : ℤ) (k : StepKey) (nanos : ℤ) (s : Steps) (m : Timings)
    → Stands s m
    → Stands (note_start now k nanos s) (call_timings (started now k nanos) m).1
unfolding Stands note_start call_timings
started-Stands now k nanos s m (d, f) = (
  put_step-Distinct k (opened now nanos) (evict now s) (evict-Distinct now s d),
  λ j. ground (
    arith,
    find_step-put_step k j (opened now nanos) (evict now s),
    find_step-evict now j s d,
    f j,
  ),
)

streamed-Stands :
    (now : ℤ) (k : StepKey) (nanos : ℤ) (s : Steps) (m : Timings)
    → Stands s m
    → Stands (note_first_token now k nanos s) (call_timings (streamed now k nanos) m).1
unfolding Stands note_first_token call_timings streamed_timing
streamed-Stands now k nanos s m (d, f) = elim (Option-cases (find_step k s)) [
  | inl e ↦ rw (note_first_token, e) (d, λ j. ground (arith, f j, f k, same_value m k j))
  | inr (t, e) ↦ elim (Bool-cases (eqb_ℤ t.first_token_nanos (pos 0))) [
    | inl z ↦
        rw (note_first_token, e, z)
          (
            put_step-Distinct k (streamed_once now nanos t) s d,
            λ j. ground (
              arith,
              find_step-put_step k j (streamed_once now nanos t) s,
              f j,
              f k,
              same_value m k j,
            ),
          )
    | inr z ↦ rw (note_first_token, e, z) (d, λ j. ground (arith, f j, f k, same_value m k j))
  ]
]

closed-Stands :
    (k : StepKey) (s : Steps) (m : Timings)
    → Stands s m
    → ((take_step k s).0 ≡ m k) × Stands (take_step k s).1 (call_timings (closed k) m).1
unfolding Stands take_step call_timings
closed-Stands k s m (d, f) = elim (Option-cases (find_step k s)) [
  | inl e ↦ rw (take_step, e) (sym e ∙ f k, (d, λ j. ground (arith, f j, f k, same_value m k j)))
  | inr (t, e) ↦
      rw (take_step, e)
        (
          sym e ∙ f k,
          (delete_step-Distinct k s d, λ j. ground (arith, find_step-delete_step k j s, f j)),
        )
]

run_steps-run_timings :
    (cs : List StepCall) (s : Steps) (m : Timings) → Stands s m → run_steps cs s ≡ run_timings cs m
unfolding run_steps run_timings
run_steps-run_timings [] s m h = refl
run_steps-run_timings (started now k nanos ∷ cs) s m h =
    ap (λ ts. none ∷ ts) (run_steps-run_timings cs _ _ (started-Stands now k nanos s m h))
run_steps-run_timings (streamed now k nanos ∷ cs) s m h =
    ap (λ ts. none ∷ ts) (run_steps-run_timings cs _ _ (streamed-Stands now k nanos s m h))
run_steps-run_timings (closed k ∷ cs) s m h =
    let (e, h') = closed-Stands k s m h in
    cc (e, run_steps-run_timings cs (take_step k s).1 (call_timings (closed k) m).1 h')

-- Whatever calls are made, the tracker hands out the timings of its contract: a start opens its
-- step anew and forgets the steps last seen more than 30 minutes ago, the first token of an open
-- step counts, and closing a step hands its timing out once.
pub tracker-Refines : (cs : List StepCall) → run_steps cs [] ≡ run_timings cs (λ j. none)
unfolding Stands Distinct find_step
tracker-Refines cs = run_steps-run_timings cs [] (λ j. none) (tt, λ j. refl)
