-- ===== src/Lifecycle/FailedStatus.antt =====
-- The stored status of a project after markJobFailed (cmd/brain/worker.go, cmd/brain/project_status.go).
use ovek.Common.{
  ℕ, ◌≤◌, ◌<◌, ◌+◌, ◌≡◌, refl, sym, ap, ◌∙◌, String, true, some, arith, ◌==◌, eq_refl, subst,
}
use mathlib.Core.Option.{some-injective}
use ovek.Store.{Db, JobRow, ProjectRow, ProjectStatus, JobStatus}
use ovek.Store.Sql.{ok, select_row, count_where}
use ovek.Store.Laws.{changed_option, select_row-update, select_row-holds}
use ovek.Store.Rows.{count-update_drop}
use ovek.Projects.{is_active, is_active_of, has_name, row_status, with_status, status_of}
use ovek.Projects.Laws.{Synced, sync-Synced}
use ovek.Projects.Frames.{has_name-eq, row_status-active}
use ovek.Jobs.{has_id}
use ovek.Worker.{DeploymentResult, is_job_at, mark_job_failed}
use ovek.Lifecycle.{IsWellFormed}
use ovek.Lifecycle.Steps.{failed-steps, failed_db, fail_row, of_project, is_job_at-holds}

-- With no active job and a current deployment, a project that was deploying is running.
idle_status :
    (db : Db) (p : ProjectRow) (d : String)
    → count_where (is_active_of p.name) db.jobs ≡ 0
    → p.current_deployment_id ≡ some d
    → p.status ≡ ProjectStatus.deploying
    → row_status db p ≡ ProjectStatus.running
unfolding row_status status_of
idle_status db p d idle current deploying = rw (idle, current, deploying)

module _ (id finished_at message : String) (result : DeploymentResult) (db : Db) {db' : Db} where
  -- From well-formed tables, in which the stored statuses are in step with the jobs, a job that
  -- fails leaves a project that has a current deployment stored as running, so also one that was
  -- stopped before the job was queued. A stop during the job breaks the condition.
  pub failed-running :
      (job : JobRow) (p : ProjectRow) (d : String)
      → IsWellFormed db
      → select_row (has_id id) db.jobs ≡ some job
      → select_row (has_name job.project_name) db.projects ≡ some p
      → p.current_deployment_id ≡ some d
      → mark_job_failed id finished_at message result db ≡ ok db'
      → select_row (has_name job.project_name) db'.projects
        ≡ some (with_status ProjectStatus.running p)
  failed-running job p d well found listed current h =
      let (row, found', one, synced) = failed-steps id finished_at message result db h in
      let same : row ≡ job = some-injective _ _ (sym found' ∙ found) in
      let sync = sync-Synced row.project_name (failed_db id finished_at message result db) synced in
      after (ap (λ (r : JobRow). r.project_name) same) one sync
    where
      n : String
      n = job.project_name

      named : p.name ≡ n
      named = has_name-eq n p (select_row-holds (has_name n) db.projects p listed)

      drop :
          count_where (is_active_of n) (failed_db id finished_at message result db).jobs
            + count_where (is_job_at id JobStatus.running) db.jobs
          ≡ count_where (is_active_of n) db.jobs
      drop =
          count-update_drop (is_active_of n) (is_job_at id JobStatus.running)
            (fail_row id finished_at message result db) db.jobs
            (λ j mem m.
              let there : (j.project_name == n) ≡ true =
                ap (λ k. k == n)
                  (of_project db.jobs db.projects well.keyed id JobStatus.running job j found mem m)
                ∙ eq_refl n in
              let active : is_active j.status ≡ true =
                ap is_active (is_job_at-holds id JobStatus.running j m).1 in
              (rw (there, active), rw there))

      no_active : {a b c : ℕ} → a + b ≡ c → b ≡ 1 → c ≤ 1 → a ≡ 0
      no_active e f l = omega arith

      some_active : (a : ℕ) {b c : ℕ} → a + b ≡ c → b ≡ 1 → 0 < c
      some_active a e f = omega arith

      deploying :
          count_where (is_job_at id JobStatus.running) db.jobs ≡ 1
          → p.status ≡ ProjectStatus.deploying
      deploying one =
          well.synced n p listed
          ∙ row_status-active db p (
              subst (λ k. 0 < count_where (is_active_of k) db.jobs) (sym named)
                (some_active _ drop one))

      after :
          {m : String}
          → m ≡ n
          → count_where (is_job_at id JobStatus.running) db.jobs ≡ 1
          → Synced m (failed_db id finished_at message result db) db'
          → select_row (has_name n) db'.projects ≡ some (with_status ProjectStatus.running p)
      after {m} e one sync =
          let row_is : sync.row ≡ p =
            some-injective _ _
              (sym sync.found ∙ ap (λ k. select_row (has_name k) db.projects) e ∙ listed) in
          let idle =
            ap (λ k. count_where (is_active_of k) (failed_db id finished_at message result db).jobs)
              named
            ∙ no_active drop one (well.keyed.single n) in
          let status =
            ap (row_status (failed_db id finished_at message result db)) row_is
            ∙ idle_status (failed_db id finished_at message result db) p d idle current
                (deploying one) in
          ap (λ (x : Db). select_row (has_name n) x.projects) sync.result
          ∙ select_row-update (has_name n) (has_name m)
              (with_status (row_status (failed_db id finished_at message result db) sync.row))
              db.projects (λ x k. refl)
          ∙ ap
              (changed_option (has_name m)
                (with_status (row_status (failed_db id finished_at message result db) sync.row)))
              listed
          ∙ rw (status, e, named, eq_refl n)
