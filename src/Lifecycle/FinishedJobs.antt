-- ===== src/Lifecycle/FinishedJobs.antt =====
-- What an update of jobs, and markJobFailed (cmd/brain/worker.go), leave of a finished job.
use ovek.Common.{
  ◌≡◌, refl, ap, ◌∙◌, String, Bool, true, false, some, List, ◌==◌, inl, inr, if◌then◌else◌,
  Bool-cases,
}
use ovek.Store.{Db, JobRow, JobStatus}
use ovek.Store.Sql.{ok, select_row, update_where}
use ovek.Store.Laws.{changed_option, select_row-update}
use ovek.Projects.{is_active}
use ovek.Projects.Laws.{sync-Synced}
use ovek.Jobs.{has_id}
use ovek.Worker.{DeploymentResult, is_job_at, mark_job_failed}
use ovek.Lifecycle.Steps.{failed-steps, failed_db, fail_row, is_job_at-holds}

-- An update of active jobs leaves a finished job alone.
pub update-finished :
    (p : JobRow → Bool) (f : JobRow → JobRow) (jobs : List JobRow) (k : String) (j : JobRow)
    → ((x : JobRow) → (f x).id ≡ x.id)
    → ((x : JobRow) → p x ≡ true → is_active x.status ≡ true)
    → select_row (has_id k) jobs ≡ some j
    → is_active j.status ≡ false
    → select_row (has_id k) (update_where p f jobs) ≡ some j
update-finished p f jobs k j keeps active found finished =
    select_row-update (has_id k) p f jobs (λ x h. ap (λ i. i == k) (keeps x))
    ∙ ap (changed_option p f) found
    ∙ (elim (Bool-cases (p j)) [
      | inl e ↦ cc (active j e, finished)
      | inr e ↦ ap (λ (b : Bool). some (if b then f j else j)) e
    ])

pub at_active :
    (id : String) (s : JobStatus)
    → is_active s ≡ true
    → (x : JobRow) → is_job_at id s x ≡ true
    → is_active x.status ≡ true
at_active id s h x m = ap is_active (is_job_at-holds id s x m).1 ∙ h

-- The row of a finished job stands where it was.
abbrev pub HasJob : String → JobRow → Db → Type 0
HasJob k j db = select_row (has_id k) db.jobs ≡ some j

pub failed-finished :
    (id finished_at message : String) (result : DeploymentResult) (db db' : Db) (k : String)
    (j : JobRow)
    → is_active j.status ≡ false
    → mark_job_failed id finished_at message result db ≡ ok db'
    → HasJob k j db
    → HasJob k j db'
failed-finished id finished_at message result db db' k j finished h found =
    let (row, had, one, synced) = failed-steps id finished_at message result db h in
    let sync = sync-Synced row.project_name (failed_db id finished_at message result db) synced in
    ap (λ (d : Db). select_row (has_id k) d.jobs) sync.result
    ∙ update-finished (is_job_at id JobStatus.running) (fail_row id finished_at message result db)
        db.jobs k j (λ x. refl) (at_active id JobStatus.running refl) found finished

pub same_jobs-finished :
    (db db' : Db) (k : String) (j : JobRow) → db'.jobs ≡ db.jobs → HasJob k j db → HasJob k j db'
same_jobs-finished db db' k j jobs found = ap (select_row (has_id k)) jobs ∙ found
