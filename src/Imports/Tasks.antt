-- ===== src/Imports/Tasks.antt =====
-- How the tasks of a job begin, go on and end.
use cc_otel.Prelude.{
  ◌≡◌, refl, ap, sym, sym, ◌∙◌, Bool, true, false, not, ◌&&◌, if◌then◌else◌, Option, none, some,
  List, [], ◌∷◌, arith,
}
use cc_otel.Prelude.Text.{Text, text_eq, text_eq_self, text_eq_iff}
use cc_otel.Imports.Job.{Job, is_importing}
use cc_otel.Imports.Manager.{Manager, Task, new_task, doom_tasks, cancel_tasks}
use cc_otel.Imports.Finish.{find_task, drop_task}
use cc_otel.Imports.Traces.{
  tasks_of, has_task, others_ending, all_ending, own, is_settled, JobFits, IsValid,
}

-- A valid manager stays one on both sides of a test.
pub if-IsValid :
    {A : Type 0} (b : Bool) (x y : Manager × A)
    → (b ≡ true → IsValid x.0)
    → (b ≡ false → IsValid y.0)
    → IsValid (if b then x else y).0
if-IsValid true x y f g = f refl
if-IsValid false x y f g = g refl

-- A live job's end or its absence leaves nothing alive.
pub none-alive :
    (id : Text) (ts : List Task)
    → tasks_of id ts ≡ []
    → others_ending id ts ≡ true
    → all_ending ts ≡ true
unfolding tasks_of others_ending all_ending
none-alive id [] h g = refl
none-alive id (t ∷ ts) h g = ground (arith, none-alive id ts)

-- Nothing alive but perhaps the tasks of one job.
pub alive-others : (id : Text) (ts : List Task) → all_ending ts ≡ true → others_ending id ts ≡ true
unfolding others_ending all_ending
alive-others id [] h = refl
alive-others id (t ∷ ts) h = ground (arith, alive-others id ts)

pub no_task-tasks_of : (id : Text) (ts : List Task) → has_task id ts ≡ false → tasks_of id ts ≡ []
unfolding tasks_of find_task
no_task-tasks_of id [] h = refl
no_task-tasks_of id (t ∷ ts) h = ground (arith, no_task-tasks_of id ts)

pub doom-ending :
    (id : Text) (ts : List Task) → others_ending id ts ≡ true → all_ending (doom_tasks id ts) ≡ true
unfolding others_ending all_ending doom_tasks
doom-ending id [] h = refl
doom-ending id (t ∷ ts) h = ground (arith, doom-ending id ts)

pub cancel-ending :
    (id : Text) (ts : List Task) → all_ending ts ≡ true → all_ending (cancel_tasks id ts) ≡ true
unfolding all_ending cancel_tasks
cancel-ending id [] h = refl
cancel-ending id (t ∷ ts) h = ground (arith, cancel-ending id ts)

cancel-others :
    (id k : Text) (ts : List Task)
    → others_ending k ts ≡ true
    → others_ending k (cancel_tasks id ts) ≡ true
unfolding others_ending cancel_tasks
cancel-others id k [] h = refl
cancel-others id k (t ∷ ts) h = ground (arith, cancel-others id k ts)

-- No abort is about to cancel one of the tasks.
unfoldable pub none_doomed : List Task → Bool
none_doomed [] = true
none_doomed (t ∷ ts) = not t.doomed && none_doomed ts

-- The call of an abort cancels no task but those that it doomed.
cancel-tasks_of :
    (id k : Text) (ts : List Task)
    → none_doomed (tasks_of k ts) ≡ true
    → tasks_of k (cancel_tasks id ts) ≡ tasks_of k ts
unfolding tasks_of cancel_tasks none_doomed
cancel-tasks_of id k [] h = refl
cancel-tasks_of id k (t ∷ ts) h = ground (arith, cancel-tasks_of id k ts)

none_doomed-own : (j : Job) → none_doomed (own j) ≡ true
unfolding own none_doomed
none_doomed-own j = ground arith

pub cancelled-Fits :
    (id : Text) (j : Job) (ts : List Task) (closed : Bool)
    → JobFits j ts closed
    → JobFits j (cancel_tasks id ts) closed
cancelled-Fits id j ts closed v = record {
  owned = cancel-tasks_of id j.job_id ts (ap none_doomed v.owned ∙ none_doomed-own j) ∙ v.owned;
  stale = cancel-others id j.job_id ts v.stale;
  cancels = v.cancels;
  settled = v.settled;
}

pub inactive-own : (j : Job) → j.active ≡ false → own j ≡ []
unfolding own
inactive-own j a = rw a

pub active-own : (j : Job) → j.active ≡ true → own j ≡ new_task j.job_id (is_importing j.state) ∷ []
unfolding own
active-own j a = rw a

pub tasks-new :
    (id : Text) (merge : Bool) (ts : List Task)
    → tasks_of id (new_task id merge ∷ ts) ≡ new_task id merge ∷ tasks_of id ts
unfolding tasks_of
tasks-new id merge ts = rw (text_eq_self id)

pub others-new :
    (id : Text) (merge : Bool) (ts : List Task)
    → others_ending id (new_task id merge ∷ ts) ≡ others_ending id ts
unfolding others_ending
others-new id merge ts = rw (text_eq_self id)

-- A job whose task starts.
pub starts-Fits :
    (j k : Job) (merge closed : Bool) (ts : List Task)
    → k.job_id ≡ j.job_id
    → k.active ≡ true
    → k.cancel ≡ true
    → is_importing k.state ≡ merge
    → is_settled closed k ≡ true
    → j.active ≡ false
    → JobFits j ts closed
    → JobFits k (new_task j.job_id merge ∷ ts) closed
starts-Fits j k merge closed ts i a c g s n v = record {
  owned = cc (i, g, tasks-new j.job_id merge ts, v.owned, inactive-own j n, active-own k a);
  stale = cc (i, others-new j.job_id merge ts, v.stale);
  cancels = cc;
  settled = s;
}

-- A job whose task, if any, goes on.
pub stays-Fits :
    (j k : Job) (closed : Bool) (ts : List Task)
    → k.job_id ≡ j.job_id
    → k.active ≡ j.active
    → k.cancel ≡ j.cancel
    → is_importing k.state ≡ is_importing j.state
    → is_settled closed k ≡ true
    → JobFits j ts closed
    → JobFits k ts closed
unfolding own
stays-Fits j k closed ts i a c g s v = record {
  owned = rw (i, a, g) v.owned;
  stale = rw i v.stale;
  cancels = cc (a, c, v.cancels);
  settled = s;
}

abbrev rest_of : List Task → List Task
rest_of [] = []
rest_of (t ∷ ts) = ts

pub tasks-drop :
    (id : Text) (ts : List Task) → tasks_of id (drop_task id ts) ≡ rest_of (tasks_of id ts)
unfolding tasks_of drop_task
tasks-drop id [] = refl
tasks-drop id (u ∷ ts) = ground (arith, tasks-drop id ts)

pub rest-own : (j : Job) → rest_of (own j) ≡ []
unfolding own
rest-own j = ground arith

pub others-drop :
    (id k : Text) (ts : List Task)
    → others_ending k ts ≡ true
    → others_ending k (drop_task id ts) ≡ true
unfolding others_ending drop_task
others-drop id k [] h = refl
others-drop id k (u ∷ ts) h = ground (arith, others-drop id k ts)

pub find-tasks_of : (id : Text) (ts : List Task) → tasks_of id ts ≡ [] → has_task id ts ≡ false
unfolding tasks_of find_task
find-tasks_of id [] h = refl
find-tasks_of id (t ∷ ts) h = ground (arith, find-tasks_of id ts)

-- A job whose task ends.
pub ends-Fits :
    (j k : Job) (closed : Bool) (ts : List Task)
    → k.job_id ≡ j.job_id
    → k.active ≡ false
    → k.cancel ≡ false
    → is_settled closed k ≡ true
    → JobFits j ts closed
    → JobFits k (drop_task j.job_id ts) closed
unfolding own
ends-Fits j k closed ts i a c s v = record {
  owned = rw (i, a, tasks-drop j.job_id ts, v.owned, rest-own j);
  stale = rw i (others-drop j.job_id j.job_id ts v.stale);
  cancels = cc;
  settled = s;
}

pub same_id : (s t : Text) → text_eq s t ≡ true → t ≡ s
same_id s t h = sym ((text_eq_iff s t).0 h)

abbrev pub first_task : List Task → Option Task
first_task [] = none
first_task (t ∷ ts) = some t

pub find-tasks : (id : Text) (ts : List Task) → find_task id ts ≡ first_task (tasks_of id ts)
unfolding tasks_of find_task
find-tasks id [] = refl
find-tasks id (t ∷ ts) = ground (arith, find-tasks id ts)

pub first-own :
    (j : Job)
    → first_task (own j)
      ≡ (if j.active then some (new_task j.job_id (is_importing j.state)) else none)
unfolding own
first-own j = ground arith

pub find-own :
    (j : Job) (ts : List Task) (closed : Bool)
    → JobFits j ts closed
    → find_task j.job_id ts
      ≡ (if j.active then some (new_task j.job_id (is_importing j.state)) else none)
find-own j ts closed v = find-tasks j.job_id ts ∙ ap first_task v.owned ∙ first-own j

pub alive-drop :
    (id : Text) (ts : List Task) → all_ending ts ≡ true → all_ending (drop_task id ts) ≡ true
unfolding all_ending drop_task
alive-drop id [] h = refl
alive-drop id (t ∷ ts) h = ground (arith, alive-drop id ts)

tasks-drop_other :
    (id k : Text) (ts : List Task)
    → text_eq k id ≡ false
    → tasks_of k (drop_task id ts) ≡ tasks_of k ts
unfolding tasks_of drop_task
tasks-drop_other id k [] d = refl
tasks-drop_other id k (t ∷ ts) d =
    ground
      (arith, tasks-drop_other id k ts, same_id t.task_id id, same_id t.task_id k, text_eq_self id)

-- A job while another job's task ends.
pub other-Fits :
    (id : Text) (j : Job) (closed : Bool) (ts : List Task)
    → text_eq j.job_id id ≡ false
    → JobFits j ts closed
    → JobFits j (drop_task id ts) closed
other-Fits id j closed ts d v = record {
  owned = tasks-drop_other id j.job_id ts d ∙ v.owned;
  stale = others-drop id j.job_id ts v.stale;
  cancels = v.cancels;
  settled = v.settled;
}
