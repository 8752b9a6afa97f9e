-- ===== src/Imports/Runs.antt =====
-- What holds after every run of steps: the tasks that run are those that the job needs, and no two
-- of them work on live contexts.
use mathlib.Core.Option.{some-injective}
use cc_otel.Prelude.{
  ◌≡◌, refl, Bool, false, not, ◌||◌, if◌then◌else◌, Option, none, some, List, [], ◌∷◌, Option-cases,
  inl, inr, arith, subst,
}
use cc_otel.Prelude.Text.{Text}
use cc_otel.Imports.Job.{Job, is_uploading}
use cc_otel.Imports.Manager.{Manager, Task, stage_file, end_abort}
use cc_otel.Imports.Finish.{find_task}
use cc_otel.Imports.Traces.{
  Step, reserve, no_random, stage, complete, report, inspection_ends, begin, merge_ends, abort,
  abort_cancels, abort_ends, sweep, shut, step, run, new_manager, IsValid, Fits, has_task,
  task_ends_merge, all_ending, is_ending,
}
use cc_otel.Imports.Keeps.{
  complete-Fits, report-Fits, start-Fits, abort-Fits, cancels-Fits, sweep-Fits, reserve-Fits,
  no_random-Fits, close-Fits,
}
use cc_otel.Imports.Ends.{end_merge-Fits, end_inspection-Fits}

pub guarded :
    (b : Bool) (m m' : Manager) → (if b then none else some m) ≡ some m' → (b ≡ false) × (m ≡ m')
guarded b m m' h = ground arith

pub ended :
    (o : Option Task) (b : Task → Bool) (f : Task → Manager) (m' : Manager)
    → elim o as (λ _. Option Manager) [ none ↦ none | some t ↦ if b t then none else some (f t) ]
      ≡ some m'
    → (t : Task) × (o ≡ some t) × (b t ≡ false) × (f t ≡ m')
ended none b f m' h = ground arith
ended (some t) b f m' h = let (g, e) = guarded (b t) (f t) m' h in (t, refl, g, e)

-- Every step keeps a manager valid.
step-IsValid : (s : Step) (m m' : Manager) → step s m ≡ some m' → IsValid m → IsValid m'
unfolding step IsValid task_ends_merge stage_file end_abort
step-IsValid (reserve now id name) m m' h v =
    let (g, e) = guarded (has_task id m.running) _ m' h in
    subst IsValid e (reserve-Fits m.running m.closed m.dir m.files now id name m.job g v)
step-IsValid (no_random now) m m' h v =
    subst IsValid (some-injective _ _ h)
      (no_random-Fits m.running m.closed m.dir m.files now m.job v)
step-IsValid (stage path) m m' h v = subst IsValid (some-injective _ _ h) v
step-IsValid (complete now id size sha256) m m' h v =
    subst IsValid (some-injective _ _ h)
      (complete-Fits m.running m.closed m.dir m.files now id size sha256 m.job v)
step-IsValid (report now id p) m m' h v =
    let (g, e) = guarded (is_uploading p.phase || not (has_task id m.running)) _ m' h in
    subst IsValid e
      (report-Fits m.running m.closed m.dir m.files now id p m.job (ground arith) (ground arith) v)
step-IsValid (inspection_ends now id i) m m' h v =
    let (t, e, g, d) = ended (find_task id m.running) (λ t. t.is_merge) _ m' h in
    subst IsValid d (end_inspection-Fits m.running m.closed t now id m.dir m.files i m.job e g v)
step-IsValid (begin now id) m m' h v =
    subst IsValid (some-injective _ _ h)
      (start-Fits m.running m.closed m.dir m.files now id m.job v)
step-IsValid (merge_ends now id g) m m' h v =
    let (t, e, k, d) = ended (find_task id m.running) (λ t. not t.is_merge) _ m' h in
    subst IsValid d
      (end_merge-Fits m.running m.closed t now id m.dir m.files _ m.job e (ground arith) v)
step-IsValid (abort id) m m' h v =
    subst IsValid (some-injective _ _ h) (abort-Fits m.running m.closed m.dir m.files id m.job v)
step-IsValid (abort_cancels id) m m' h v =
    subst IsValid (some-injective _ _ h) (cancels-Fits m.running m.closed m.dir m.files id m.job v)
step-IsValid (abort_ends path) m m' h v = subst IsValid (some-injective _ _ h) v
step-IsValid (sweep now) m m' h v =
    subst IsValid (some-injective _ _ h) (sweep-Fits m.running m.closed m.dir m.files now m.job v)
step-IsValid shut m m' h v =
    subst IsValid (some-injective _ _ h) (close-Fits m.running m.closed m.dir m.files m.job v)

run-IsValid : (ss : List Step) (m m' : Manager) → run ss m ≡ some m' → IsValid m → IsValid m'
unfolding run
run-IsValid [] m m' h v = subst IsValid (some-injective _ _ h) v
run-IsValid (s ∷ ss) m m' h v = elim (Option-cases (step s m)) [
  | inl e ↦ ground arith
  | inr (n, e) ↦ run-IsValid ss n m' (ground arith) (step-IsValid s m n e v)
]

new_manager-IsValid : (dir : Text) → IsValid (new_manager dir)
unfolding IsValid Fits all_ending
new_manager-IsValid dir = refl

pub reached-IsValid :
    (dir : Text) (ss : List Step) (m : Manager) → run ss (new_manager dir) ≡ some m → IsValid m
reached-IsValid dir ss m h = run-IsValid ss (new_manager dir) m h (new_manager-IsValid dir)

-- The tasks whose context is not cancelled and not about to be.
abbrev pub live_tasks : List Task → List Task
live_tasks [] = []
live_tasks (t ∷ ts) = let rest = live_tasks ts in if is_ending t then rest else t ∷ rest

-- The tasks whose context is not cancelled.
abbrev pub uncancelled_tasks : List Task → List Task
uncancelled_tasks [] = []
uncancelled_tasks (t ∷ ts) =
    let rest = uncancelled_tasks ts in if t.cancelled then rest else t ∷ rest
