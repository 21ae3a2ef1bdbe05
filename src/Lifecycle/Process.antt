-- ===== src/Lifecycle/Process.antt =====
-- processJob (cmd/brain/worker.go): a claimed job is always brought to an end.
use ovek.Common.{
  ◌≡◌, refl, sym, ap, ◌∙◌, String, Bool, true, none, some, List, [], ◌∷◌, arith, eq_iff,
  Option-cases, inl, inr, ◌⊎◌, if◌then◌else◌, subst, text_append, trim_space,
}
use mathlib.Core.Option.{some-injective}
use ovek.Store.{Db, JobRow, JobStatus, job_status_eq, Failure, Job}
use ovek.Store.Sql.{Result, ok, err, select_row, count_where}
use ovek.Store.Laws.{changed_option, select_row-holds}
use ovek.Jobs.{has_id, get_job, scan_job, decorate_job}
use ovek.Worker.{
  DeploymentResult, Outcome, is_job_at, claimed, claim_queued_job, mark_job_failed,
  mark_job_succeeded, update_job_phase, set_phases, or_unchanged, finish_job, process_claimed_job,
  process_job, job_succeeded,
}
use ovek.Lifecycle.{IsWellFormed}
use ovek.Lifecycle.Keys.{job_row-update}
use ovek.Lifecycle.Created.{get_job-found}
use ovek.Lifecycle.Steps.{
  claim-db, phase-db, claim-IsWellFormed, phase-IsWellFormed, failed-IsWellFormed, failed_total,
  failed-row, fail_row, count-is_job_at,
}
use ovek.Lifecycle.Promotion.{succeeded-IsWellFormed, succeeded-row}

-- The job with an id is running, for a project.
pub record IsRunning (id n : String) (db : Db) : Type 0 where
  pub row : JobRow
  pub found : select_row (has_id id) db.jobs ≡ some row
  pub status : row.status ≡ JobStatus.running
  pub project : row.project_name ≡ n

-- The job with an id has succeeded or failed.
pub record IsFinished (id : String) (db : Db) : Type 0 where
  pub row : JobRow
  pub found : select_row (has_id id) db.jobs ≡ some row
  pub status : (row.status ≡ JobStatus.succeeded) ⊎ (row.status ≡ JobStatus.failed)

status_eq_refl : (s : JobStatus) → job_status_eq s s ≡ true
unfolding job_status_eq
status_eq_refl s = ground arith

pub is_job_at-found :
    (id : String) (s : JobStatus) (row : JobRow) (jobs : List JobRow)
    → select_row (has_id id) jobs ≡ some row
    → row.status ≡ s
    → is_job_at id s row ≡ true
is_job_at-found id s row jobs found same =
    rw (select_row-holds (has_id id) jobs row found, same) (status_eq_refl s)

claim-IsRunning :
    (id at : String) (db : Db) (row : JobRow)
    → select_row (has_id id) db.jobs ≡ some row
    → row.status ≡ JobStatus.queued
    → IsRunning id row.project_name (claim_queued_job id at db).1
claim-IsRunning id at db row found same = rw claim-db (record {
  row = claimed at row;
  found =
      job_row-update (is_job_at id JobStatus.queued) (claimed at) db.jobs (λ j. refl) (λ j. refl) id
      ∙ ap (changed_option (is_job_at id JobStatus.queued) (claimed at)) found
      ∙ ap (λ (b : Bool). some (if b then claimed at row else row))
          (is_job_at-found id JobStatus.queued row db.jobs found same);
  status = refl;
  project = refl;
})

phase-IsRunning :
    (id n phase : String) (db : Db)
    → IsRunning id n db
    → IsRunning id n (update_job_phase id phase db)
phase-IsRunning id n phase db running = rw phase-db (record {
  row = with_phase running.row;
  found =
      job_row-update (is_job_at id JobStatus.running) with_phase db.jobs (λ j. refl) (λ j. refl) id
      ∙ ap (changed_option (is_job_at id JobStatus.running) with_phase) running.found
      ∙ ap (λ (b : Bool). some (if b then with_phase running.row else running.row))
          (is_job_at-found id JobStatus.running running.row db.jobs running.found running.status);
  status = running.status;
  project = running.project;
})
  where
    with_phase : JobRow → JobRow
    with_phase row = record row { phase = some (trim_space phase) }

-- Phases that a processor sets keep the job running and the tables well-formed.
phases-IsRunning :
    (id n : String) (phases : List String) (db : Db)
    → IsWellFormed db × IsRunning id n db
    → IsWellFormed (set_phases id phases db) × IsRunning id n (set_phases id phases db)
unfolding set_phases
phases-IsRunning id n [] db h = h
phases-IsRunning id n (phase ∷ phases) db (well, running) =
    phases-IsRunning id n phases (update_job_phase id phase db)
      (phase-IsWellFormed id phase db well, phase-IsRunning id n phase db running)

-- A failure of a running job is recorded.
fail-IsFinished :
    (id n finished_at message : String) (result : DeploymentResult) (db : Db)
    → IsWellFormed db
    → IsRunning id n db
    → IsWellFormed (or_unchanged db (mark_job_failed id finished_at message result db))
      × IsFinished id (or_unchanged db (mark_job_failed id finished_at message result db))
fail-IsFinished id n finished_at message result db well running =
    let (db', recorded) =
      failed_total id finished_at message result db running.row well.keyed running.found
        running.status in
    let (row, found, found') = failed-row id finished_at message result db recorded in
    let same : row ≡ running.row = some-injective _ _ (sym found ∙ running.found) in
    rw recorded (
      failed-IsWellFormed id finished_at message result db well recorded,
      record {
        row = fail_row id finished_at message result db row;
        found =
            found'
            ∙ ap
                (λ (b : Bool).
                  some (if b then fail_row id finished_at message result db row else row))
                (is_job_at-found id JobStatus.running row db.jobs found
                  (ap (λ (r : JobRow). r.status) same ∙ running.status));
        status = inr refl;
      },
    )

get_job-of_row :
    (id : String) (db : Db) (row : JobRow)
    → select_row (has_id id) db.jobs ≡ some row
    → (job : Job) × (get_job id db ≡ ok job) × (job.id ≡ id) × (job.project_name ≡ row.project_name)
unfolding decorate_job scan_job
get_job-of_row id db row found = (
  decorate_job (scan_job row),
  get_job-found id row db found,
  (eq_iff row.id id).0 (select_row-holds (has_id id) db.jobs row found),
  refl,
)

Result-cases : {A : Type 0} (r : Result A) → ((a : A) × (r ≡ ok a)) ⊎ ((e : Failure) × (r ≡ err e))
Result-cases (ok a) = inl (a, refl)
Result-cases (err e) = inr (e, refl)

module _ (describe : Failure → String) (process : Job → Db → Outcome)
    (started_at finished_at : String) where
  finish_job-error :
      (job : Job) (outcome : Outcome) (db : Db) (message : String)
      → outcome.error ≡ some message
      → finish_job describe process started_at finished_at job outcome db
        ≡ or_unchanged db (mark_job_failed job.id finished_at message outcome.result db)
  unfolding finish_job
  finish_job-error job outcome db message e = rw (e, finish_job)

  finish_job-promoted :
      (job : Job) (outcome : Outcome) (db db' : Db)
      → outcome.error ≡ none
      → mark_job_succeeded job finished_at outcome.result db ≡ ok db'
      → finish_job describe process started_at finished_at job outcome db ≡ db'
  unfolding finish_job
  finish_job-promoted job outcome db db' e f = rw (e, f, finish_job)

  finish_job-not_promoted :
      (job : Job) (outcome : Outcome) (db : Db) (failure : Failure)
      → outcome.error ≡ none
      → mark_job_succeeded job finished_at outcome.result db ≡ err failure
      → finish_job describe process started_at finished_at job outcome db
        ≡ or_unchanged db (
            mark_job_failed job.id finished_at
              (text_append "promotion state update failed: " (describe failure))
              outcome.result
              db)
  unfolding finish_job
  finish_job-not_promoted job outcome db failure e f = rw (e, f, finish_job)

  finish_job-IsFinished :
      (job : Job) (outcome : Outcome) (db : Db)
      → IsWellFormed db
      → IsRunning job.id job.project_name db
      → IsWellFormed (finish_job describe process started_at finished_at job outcome db)
        × IsFinished job.id (finish_job describe process started_at finished_at job outcome db)
  finish_job-IsFinished job outcome db well running = elim (Option-cases outcome.error) [
    | inr (message, e) ↦
        rw (finish_job-error job outcome db message e) (
          fail-IsFinished job.id job.project_name finished_at message outcome.result db well
            running)
    | inl e ↦ (elim (Result-cases (mark_job_succeeded job finished_at outcome.result db)) [
      | inl (db', f) ↦ rw (finish_job-promoted job outcome db db' e f) (
        succeeded-IsWellFormed job finished_at outcome.result db running.row well running.found
            running.project f,
        record {
          row = job_succeeded finished_at outcome.result running.row;
          found =
              succeeded-row job finished_at outcome.result db running.row running.found f
              ∙ ap
                  (λ (b : Bool). some (
                    if b
                    then job_succeeded finished_at outcome.result running.row
                    else running.row))
                  (is_job_at-found job.id JobStatus.running running.row db.jobs running.found
                    running.status);
          status = inl refl;
        },
      )
      | inr (failure, f) ↦ rw (finish_job-not_promoted job outcome db failure e f) (
          fail-IsFinished job.id job.project_name finished_at
            (text_append "promotion state update failed: " (describe failure)) outcome.result db
            well running)
    ])
  ]

  process_claimed-finish :
      (id : String) (db : Db) (job : Job)
      → get_job id db ≡ ok job
      → process_claimed_job describe process started_at finished_at id db
        ≡ finish_job describe process started_at finished_at job
            (process job db)
            (set_phases job.id (process job db).phases db)
  unfolding process_claimed_job
  process_claimed-finish id db job e = rw (e, process_claimed_job)

  process_job-claimed :
      (id : String) (db : Db)
      → (claim_queued_job id started_at db).0 ≡ true
      → process_job describe process started_at finished_at id db
        ≡ process_claimed_job describe process started_at finished_at id
            (claim_queued_job id started_at db).1
  unfolding process_job
  process_job-claimed id db e = rw (e, process_job)

  claim-true :
      (id : String) (db : Db)
      → count_where (is_job_at id JobStatus.queued) db.jobs ≡ 1
      → (claim_queued_job id started_at db).0 ≡ true
  unfolding claim_queued_job
  claim-true id db one = rw one

  -- A queued job that the worker takes from its queue has succeeded or failed in the end, whatever
  -- the processor does and whatever the promotion reports, and the tables are still well-formed.
  pub process_job-IsFinished :
      (id : String) (db : Db) (row : JobRow)
      → IsWellFormed db
      → select_row (has_id id) db.jobs ≡ some row
      → row.status ≡ JobStatus.queued
      → IsWellFormed (process_job describe process started_at finished_at id db)
        × IsFinished id (process_job describe process started_at finished_at id db)
  process_job-IsFinished id db row well found same =
      let one =
        count-is_job_at db.jobs db.projects well.keyed id JobStatus.queued row found
          (ap (λ s. job_status_eq s JobStatus.queued) same ∙ status_eq_refl JobStatus.queued) in
      let db1 = (claim_queued_job id started_at db).1 in
      let running = claim-IsRunning id started_at db row found same in
      let (job, got, is_id, is_n) = get_job-of_row id db1 running.row running.found in
      rw (process_job-claimed id db (claim-true id db one), process_claimed-finish id db1 job got)
        (finished job db1 is_id (
          phases-IsRunning job.id job.project_name (process job db1).phases db1 (
            claim-IsWellFormed id started_at db well,
            record {
              row = running.row;
              found = rw is_id running.found;
              status = running.status;
              project = sym is_n;
            },
          )))
    where
      finished :
          (job : Job) (db1 : Db)
          → job.id ≡ id
          → IsWellFormed (set_phases job.id (process job db1).phases db1)
            × IsRunning job.id job.project_name (set_phases job.id (process job db1).phases db1)
          → IsWellFormed (
              finish_job describe process started_at finished_at job
                (process job db1)
                (set_phases job.id (process job db1).phases db1))
            × IsFinished id (
                finish_job describe process started_at finished_at job
                  (process job db1)
                  (set_phases job.id (process job db1).phases db1))
      finished job db1 is_id (w, r) =
          let (w', f) =
            finish_job-IsFinished job (process job db1)
              (set_phases job.id (process job db1).phases db1) w r in
          (
            w',
            subst
                (λ i. IsFinished i (
                  finish_job describe process started_at finished_at job (process job db1)
                    (set_phases job.id (process job db1).phases db1)))
                is_id f,
          )
