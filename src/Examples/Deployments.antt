-- ===== src/Examples/Deployments.antt =====
-- Deployments of one project through cmd/brain/jobs.go and cmd/brain/worker.go.
use ovek.Common.{
  text_append, ◌≡◌, ◌≢◌, refl, String, true, false, none, some, [], ◌∷◌, ◌⊎◌, inl, if◌then◌else◌,
  ◌↔◌, ◌==◌, eq_refl, Memᴰ,
}
use ovek.Store.{
  Db, JobRow, ProjectRow, JobStatus, ProjectStatus, job_status_eq, Failure, active_deployment, Job,
}
use ovek.Store.Sql.{
  update_row, require_updated_row, Result, ok, err, select_row, count_where, update_where,
}
use ovek.Projects.{
  derive_project_status, with_status, set_project_status, is_active, is_active_of, has_name,
  ensure_project,
}
use ovek.Jobs.{
  get_job, active_deployment_job_error_message, decorate_job, has_id, create_queued_job_with_source,
}
use ovek.Worker.{
  get_job_project_name, mark_job_failed, Outcome, no_result, process_job, recover_interrupted_jobs,
  has_job_status, is_succeeded_of, succeeded_row, get_project_current_deployment,
}
use ovek.Lifecycle.{IsKeyed, IsWellFormed}
use ovek.Lifecycle.Created.{create-IsWellFormed, created_job}
use ovek.Lifecycle.Creation.{create_cases}
use ovek.Lifecycle.FailedStatus.{failed-running}
use ovek.Lifecycle.Steps.{claim-IsWellFormed}
use ovek.Lifecycle.Promotion.{succeeded-IsWellFormed}
use ovek.Lifecycle.Promoted.{current-promoted, superseded-promoted}
use ovek.Lifecycle.Recovery.{interrupted, recover_total}
use ovek.Lifecycle.Transactions.{Reachable, here, step, create, claim, store_status}
use ovek.Lifecycle.Reach.{
  Reachable-IsWellFormed, Reachable-deploying, Reachable-finished, Reachable-IsKeyed,
}
use ovek.Lifecycle.Process.{process_job-IsFinished, IsFinished}
use ovek.Examples.States.{
  empty_db, empty_db-IsWellFormed, sync_tables, create_demo, good_result, demo_job, promote_demo,
  claim_demo, queued_db, running_db, promoted_db, queued_again_db, running_again_db,
  promoted_again_db, queued_db-ok, queued_again_db-ok, promoted_again_db-ok,
}

queued_db-IsWellFormed : IsWellFormed queued_db
unfolding create_demo
queued_db-IsWellFormed =
    create-IsWellFormed "job-1" "2026-01-02T03:04:05Z" "demo" " repo" "https://example.com/demo.git"
      empty_db empty_db-IsWellFormed queued_db-ok.1

queued_row-found :
    (row : JobRow) × (select_row (has_id "job-1") queued_db.jobs ≡ some row)
    × (row.status ≡ JobStatus.queued)
unfolding create_demo
queued_row-found = (_, refl, refl)

-- A processor that builds the app, and one that does not.
abbrev processor_that_works : Job → Db → Outcome
processor_that_works job db = record {
  phases = "building" ∷ "starting app" ∷ [];
  result = good_result "";
  error = none;
}

abbrev describe_failure : Failure → String
describe_failure e = "database failure"

process_job-IsFinished_example :
    IsWellFormed (
      process_job describe_failure processor_that_works "2026-01-02T03:04:30Z"
        "2026-01-02T03:05:00Z" "job-1" queued_db)
    × IsFinished "job-1" (
        process_job describe_failure processor_that_works "2026-01-02T03:04:30Z"
          "2026-01-02T03:05:00Z" "job-1" queued_db)
process_job-IsFinished_example =
    process_job-IsFinished describe_failure processor_that_works "2026-01-02T03:04:30Z"
      "2026-01-02T03:05:00Z" "job-1" queued_db queued_row-found.0 queued_db-IsWellFormed
      queued_row-found.1 queued_row-found.2

running_db-IsWellFormed : IsWellFormed running_db
unfolding claim_demo
running_db-IsWellFormed =
    claim-IsWellFormed "job-1" "2026-01-02T03:04:30Z" queued_db queued_db-IsWellFormed

-- The clock's reading at the failure of each job.
abbrev restarted_at : String → String
restarted_at id = if id == "job-1" then "2026-01-04T00:00:00Z" else "2026-01-04T00:00:01Z"

recover_total_example :
    (db' : Db) × (recover_interrupted_jobs restarted_at running_db ≡ ok db')
    × IsWellFormed db'
    × (db'.jobs
        ≡ update_where
            (has_job_status JobStatus.running)
            (interrupted restarted_at)
            running_db.jobs)
    × (count_where (has_job_status JobStatus.running) db'.jobs ≡ 0)
recover_total_example = recover_total restarted_at running_db running_db-IsWellFormed

current-promoted_example :
    get_project_current_deployment "demo" promoted_again_db
    ≡ some (succeeded_row (demo_job "job-2") (good_result "job-1"))
unfolding promote_demo
current-promoted_example =
    current-promoted (demo_job "job-2") "2026-01-02T03:05:00Z" (good_result "job-1")
      running_again_db promoted_again_db-ok

differ : (s t : String) → (s == t) ≡ false → s ≢ t
differ s t h e = cc (h, e, eq_refl t)

superseded-promoted_example :
    count_where (is_succeeded_of "job-1" "demo") promoted_again_db.deployments ≡ 0
unfolding promote_demo
superseded-promoted_example =
    superseded-promoted (demo_job "job-2") "2026-01-02T03:05:00Z" (good_result "job-1")
      running_again_db (differ "job-1" "" refl) (differ "job-1" "job-2" refl) promoted_again_db-ok

reached : Reachable false empty_db running_db
unfolding create_demo claim_demo
reached =
    step
      (step here (
        create "job-1" "2026-01-02T03:04:05Z" "demo" " repo" "https://example.com/demo.git"
          queued_db-ok.0 queued_db-ok.1))
      (claim "job-1" "2026-01-02T03:04:30Z" refl)

Reachable-IsWellFormed_example : IsWellFormed running_db
Reachable-IsWellFormed_example =
    Reachable-IsWellFormed empty_db running_db empty_db-IsWellFormed reached

demo_row : (p : ProjectRow) × (select_row (has_name "demo") running_db.projects ≡ some p)
unfolding create_demo claim_demo
demo_row = (_, refl)

Reachable-deploying_example :
    (demo_row.0.status ≡ ProjectStatus.deploying)
    ↔ (count_where (is_active_of "demo") running_db.jobs ≡ 1)
Reachable-deploying_example =
    Reachable-deploying empty_db running_db demo_row.0 "demo" empty_db-IsWellFormed reached
      demo_row.1

promoted_db-IsWellFormed : IsWellFormed promoted_db
unfolding create_demo claim_demo promote_demo
promoted_db-IsWellFormed =
    succeeded-IsWellFormed (demo_job "job-1") "2026-01-02T03:05:00Z" (good_result "") running_db _
      running_db-IsWellFormed refl refl refl

promoted_row :
    (j : JobRow) × (select_row (has_id "job-1") promoted_db.jobs ≡ some j)
    × (is_active j.status ≡ false)
unfolding create_demo claim_demo promote_demo
promoted_row = (_, refl, refl)

unfoldable stop_demo : Db → Result Db
unfolding set_project_status update_row require_updated_row count_where update_where
stop_demo db = set_project_status "demo" ProjectStatus.stopped db

stopped : (db' : Db) × (stop_demo queued_again_db ≡ ok db')
unfolding create_demo promote_demo claim_demo stop_demo
stopped = (_, refl)

-- A second job is queued, and the app of the first is stopped while it waits.
reached_again : Reachable true promoted_db stopped.0
unfolding create_demo stop_demo
reached_again =
    step
      (step here (
        create "job-2" "2026-01-03T03:04:05Z" "demo" " repo" "https://example.com/demo.git"
          queued_again_db-ok.0 queued_again_db-ok.1))
      (store_status "demo" ProjectStatus.stopped refl stopped.1 (inl refl))

-- The project is then stored as stopped, and its queued job makes the derived status another.
stopped_during_job :
    (p : ProjectRow) × (select_row (has_name "demo") stopped.0.projects ≡ some p)
    × (p.status ≡ ProjectStatus.stopped)
    × (derive_project_status "demo" stopped.0 ≡ ok ProjectStatus.deploying)
unfolding create_demo promote_demo claim_demo stop_demo derive_project_status stopped
stopped_during_job = (_, refl, refl, refl)

Reachable-IsKeyed_example : IsKeyed stopped.0.jobs stopped.0.projects
Reachable-IsKeyed_example =
    Reachable-IsKeyed true promoted_db stopped.0 promoted_db-IsWellFormed.keyed reached_again

Reachable-finished_example : select_row (has_id "job-1") stopped.0.jobs ≡ some promoted_row.0
Reachable-finished_example =
    Reachable-finished true promoted_db stopped.0 "job-1" promoted_row.0
      promoted_db-IsWellFormed.keyed promoted_row.1 promoted_row.2 reached_again

create_cases_example :
    ((count_where (is_active_of "demo") running_db.jobs ≡ 0)
      × (db' : Db) × (create_queued_job_with_source "job-2" "2026-01-03T03:04:05Z" "demo" "image"
            "demo:2" true running_db
          ≡ ok (
            created_job "job-2" "2026-01-03T03:04:05Z" "demo" "image" "demo:2"
                (ensure_project "demo" "2026-01-03T03:04:05Z" running_db),
            db',
          )))
    ⊎ ((active : JobRow) × (job : Job) × Memᴰ active running_db.jobs
        × (is_active_of "demo" active ≡ true)
        × (get_job active.id running_db ≡ ok job)
        × (create_queued_job_with_source "job-2" "2026-01-03T03:04:05Z" "demo" "image" "demo:2" true
              running_db
            ≡ err (active_deployment job)))
unfolding create_demo claim_demo
create_cases_example =
    create_cases "job-2" "2026-01-03T03:04:05Z" "demo" "image" "demo:2" running_db
      running_db-IsWellFormed refl

refused_message :
    active_deployment_job_error_message (demo_job "job-1")
    ≡ "project \"demo\" already has active deployment job \"job-1\""
unfolding active_deployment_job_error_message decorate_job text_append
refused_message = refl

queued_again_db-IsWellFormed : IsWellFormed queued_again_db
unfolding create_demo
queued_again_db-IsWellFormed =
    create-IsWellFormed "job-2" "2026-01-03T03:04:05Z" "demo" " repo" "https://example.com/demo.git"
      promoted_db promoted_db-IsWellFormed queued_again_db-ok.1

running_again_db-IsWellFormed : IsWellFormed running_again_db
unfolding claim_demo
running_again_db-IsWellFormed =
    claim-IsWellFormed "job-2" "2026-01-02T03:04:30Z" queued_again_db queued_again_db-IsWellFormed

unfoldable fail_demo : Db → Result Db
unfolding mark_job_failed get_job_project_name job_status_eq sync_tables
fail_demo db = mark_job_failed "job-2" "t9" "git clone: no route to host" no_result db

failed_again :
    (job : JobRow) × (p : ProjectRow) × (d : String) × (db' : Db) × (select_row
        (has_id "job-2")
        running_again_db.jobs
      ≡ some job)
    × (select_row (has_name job.project_name) running_again_db.projects ≡ some p)
    × (p.current_deployment_id ≡ some d)
    × (fail_demo running_again_db ≡ ok db')
unfolding fail_demo create_demo promote_demo claim_demo
failed_again = (_, _, _, _, refl, refl, refl, refl)

failed-running_example :
    select_row (has_name failed_again.0.project_name) failed_again.3.projects
    ≡ some (with_status ProjectStatus.running failed_again.1)
unfolding fail_demo create_demo promote_demo claim_demo
failed-running_example =
    failed-running "job-2" "t9" "git clone: no route to host" no_result running_again_db
      failed_again.0 failed_again.1 failed_again.2 running_again_db-IsWellFormed failed_again.4
      failed_again.5 failed_again.6 failed_again.7
