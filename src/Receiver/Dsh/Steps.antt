-- ===== src/Receiver/Dsh/Steps.antt =====
-- The tracker of steps against the function from keys to timings that it stands for.
use cc_otel.Prelude.{true, Option, none, some, [], ◌∷◌, ◌≡◌, refl, arith, if◌then◌else◌, ◌↔◌, ap}
use cc_otel.Prelude.Int.{ℤ, ltb_ℤ, ◌-ℤ◌, eq_of_parts}
use cc_otel.Prelude.Text.{text_eq_iff}
use cc_otel.Receiver.Dsh.{
  StepKey, StepTiming, Steps, step_key_eq, find_step, delete_step, put_step, evict, dsh_step_ttl,
}

pub step_key_eq_iff : (j k : StepKey) → (step_key_eq j k ≡ true) ↔ (j ≡ k)
unfolding step_key_eq
step_key_eq_iff j k = (
  λ h. ground (
    arith,
    text_eq_iff j.session_id k.session_id,
    eq_of_parts j.turn k.turn,
    eq_of_parts j.step k.step,
  ),
  λ e. ground (arith, text_eq_iff j.session_id k.session_id),
)

pub step_key_eq_self : (k : StepKey) → step_key_eq k k ≡ true
step_key_eq_self k = (step_key_eq_iff k k).1 refl

same_find :
    (i j k : StepKey) (s : Steps)
    → step_key_eq i j ≡ true
    → (find_step i s ≡ find_step j s) × (step_key_eq i k ≡ step_key_eq j k)
same_find i j k s h =
    let e = (step_key_eq_iff i j).0 h in (ap (λ x. find_step x s) e, ap (λ x. step_key_eq x k) e)

pub find_step-delete_step :
    (k j : StepKey) (s : Steps)
    → find_step j (delete_step k s) ≡ (if step_key_eq k j then none else find_step j s)
unfolding find_step delete_step
find_step-delete_step k j [] = ground arith
find_step-delete_step k j ((i, t) ∷ s) = ground (
  arith,
  find_step-delete_step k j s,
  step_key_eq_iff i k,
  step_key_eq_iff i j,
  step_key_eq_iff k j,
)

pub find_step-put_step :
    (k j : StepKey) (t : StepTiming) (s : Steps)
    → find_step j (put_step k t s) ≡ (if step_key_eq k j then some t else find_step j s)
unfolding find_step put_step
find_step-put_step k j t s = ground (arith, find_step-delete_step k j s)

-- A key has one entry at most, as in a Go map.
unfoldable pub Distinct : Steps → Type 0
Distinct [] = Unit
Distinct ((j, t) ∷ s) = (find_step j s ≡ none) × Distinct s

pub delete_step-Distinct : (k : StepKey) (s : Steps) → Distinct s → Distinct (delete_step k s)
unfolding Distinct delete_step
delete_step-Distinct k [] d = tt
delete_step-Distinct k ((j, t) ∷ s) d =
    ground (arith, delete_step-Distinct k s, find_step-delete_step k j s)

pub put_step-Distinct :
    (k : StepKey) (t : StepTiming) (s : Steps) → Distinct s → Distinct (put_step k t s)
unfolding Distinct put_step
put_step-Distinct k t s d =
    (ground (arith, find_step-delete_step k k s, step_key_eq_self k), delete_step-Distinct k s d)

-- An entry of the age that `evict` leaves.
unfoldable pub kept_timing : ℤ → Option StepTiming → Option StepTiming
kept_timing now none = none
kept_timing now (some t) = if ltb_ℤ t.seen (now -ℤ dsh_step_ttl) then none else some t

pub find_step-evict :
    (now : ℤ) (j : StepKey) (s : Steps)
    → Distinct s
    → find_step j (evict now s) ≡ kept_timing now (find_step j s)
unfolding find_step evict kept_timing Distinct
find_step-evict now j [] d = refl
find_step-evict now j ((i, t) ∷ s) d =
    ground (arith, find_step-evict now j s d.1, same_find i j j s)

pub evict-Distinct : (now : ℤ) (s : Steps) → Distinct s → Distinct (evict now s)
unfolding Distinct evict kept_timing
evict-Distinct now [] d = tt
evict-Distinct now ((j, t) ∷ s) d =
    ground (arith, evict-Distinct now s d.1, find_step-evict now j s d.1, ap (kept_timing now) d.0)
