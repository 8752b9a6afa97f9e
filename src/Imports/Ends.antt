-- ===== src/Imports/Ends.antt =====
-- That the end of a task keeps a manager valid.
use cc_otel.Prelude.{
  ℕ, ◌≡◌, refl, Bool, true, false, ◌||◌, Option, none, some, List, Bool-cases, inl, inr, arith,
}
use cc_otel.Prelude.Text.{Text, text_eq}
use cc_otel.Imports.Job.{Job, MergeResult, is_importing}
use cc_otel.Imports.Manager.{Task, StagedFile}
use cc_otel.Imports.Finish.{
  Inspected, Returned, find_task, drop_task, end_inspection, end_merge, judge, idle_job,
  inspected_job, merged_job,
}
use cc_otel.Imports.Tasks.{alive-drop, other-Fits, ends-Fits, find-own, same_id}
use cc_otel.Imports.Traces.{is_settled, JobFits, Fits, IsValid}

module _ (ts : List Task) (closed : Bool) (t : Task) where
  -- The task that ends is the job's own: the job is active, the kinds agree and the context lives.
  own_task :
      (j : Job) (id : Text)
      → text_eq j.job_id id ≡ true
      → find_task id ts ≡ some t
      → JobFits j ts closed
      → (j.active ≡ true) × (t.is_merge ≡ is_importing j.state) × (t.cancelled ≡ false)
  own_task j id e f v = ground (arith, f, find-own j ts closed v, same_id j.job_id id e)

  -- The job after its task, in any state that needs none.
  after_task :
      (j k : Job) (id : Text)
      → text_eq j.job_id id ≡ true
      → k.job_id ≡ j.job_id
      → k.active ≡ false
      → k.cancel ≡ false
      → is_settled closed k ≡ true
      → JobFits j ts closed
      → JobFits k (drop_task id ts) closed
  after_task j k id e i a c s v = rw (same_id j.job_id id e) (ends-Fits j k closed ts i a c s v)

  pub end_merge-Fits :
      (now : ℕ) (id dir : Text) (files : List StagedFile) (r : Returned MergeResult)
      (o : Option Job)
      → find_task id ts ≡ some t
      → t.is_merge ≡ true
      → Fits o ts closed
      → IsValid
          (record (end_merge now id
            (closed || t.cancelled)
            r
            (record { job = o; running = ts; closed = closed; dir = dir; files = files })).0 {
              running = drop_task id ts;
            })
  unfolding end_merge IsValid Fits merged_job idle_job is_settled
  end_merge-Fits now id dir files r none f k v = alive-drop id ts v
  end_merge-Fits now id dir files r (some j) f k v = elim (Bool-cases (text_eq j.job_id id)) [
    | inr d ↦ rw d (other-Fits id j closed ts d v)
    | inl e ↦
        let (a, m, c) = own_task j id e f v in
        elim (Bool-cases (closed || t.cancelled)) [
          | inl s ↦
              rw (e, s)
                (after_task j (idle_job j) id e refl refl refl (ground (arith, v.settled)) v)
          | inr s ↦
              rw (e, s)
                (after_task j (merged_job now r (idle_job j)) id e (ground arith) (ground arith)
                  (ground arith) (ground arith) v)
        ]
  ]

  pub end_inspection-Fits :
      (now : ℕ) (id dir : Text) (files : List StagedFile) (i : Inspected) (o : Option Job)
      → find_task id ts ≡ some t
      → t.is_merge ≡ false
      → Fits o ts closed
      → IsValid
          (record (end_inspection now id
            (closed || t.cancelled)
            i
            (record { job = o; running = ts; closed = closed; dir = dir; files = files })) {
              running = drop_task id ts;
            })
  unfolding end_inspection IsValid Fits inspected_job idle_job is_settled
  end_inspection-Fits now id dir files i none f k v = alive-drop id ts v
  end_inspection-Fits now id dir files i (some j) f k v = elim (Bool-cases (text_eq j.job_id id)) [
    | inr d ↦ rw d (other-Fits id j closed ts d v)
    | inl e ↦
        let (a, m, c) = own_task j id e f v in
        elim (Bool-cases (closed || t.cancelled)) [
          | inl s ↦
              rw (e, s)
                (after_task j
                  (idle_job (record j {
                    codex_only = (judge i).codex_only;
                    codex_too = (judge i).codex_too;
                  }))
                  id e refl refl refl (ground (arith, v.settled)) v)
          | inr s ↦
              rw (e, s)
                (after_task j
                  (inspected_job now (judge i) (
                    idle_job (record j {
                      codex_only = (judge i).codex_only;
                      codex_too = (judge i).codex_too;
                    })))
                  id e (ground arith) (ground arith) (ground arith) (ground arith) v)
        ]
  ]
