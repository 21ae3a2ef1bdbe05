-- ===== src/Lifecycle/Promotion.antt =====
-- markJobSucceeded (cmd/brain/worker.go): what a promotion changes.
use ovek.Common.{
  ◌≡◌, ◌≢◌, refl, sym, ap, ◌∙◌, String, some, List, [], ◌∷◌, ◌++◌, ◌==◌, inl, inr, if◌then◌else◌,
  Bool-cases, subst,
}
use ovek.Store.{Db, JobRow, ProjectRow, DeploymentRow, DeploymentStatus, JobStatus, Job}
use ovek.Store.Sql.{
  Result, ok, bind-ok, ok_inj, select_row, count_where, exists_where, update_where, update_row,
}
use ovek.Store.Laws.{changed, changed_option, update_row-ok}
use ovek.Store.Rows.{exists_where-false}
use ovek.Projects.{has_name, sync_project_status}
use ovek.Projects.Laws.{IsSyncedRow, Synced, sync-Synced}
use ovek.Projects.Frames.{sync-IsSynced, jobs-IsSyncedRow}
use ovek.Jobs.{has_id}
use ovek.Worker.{
  DeploymentResult, is_job_at, job_succeeded, is_deployment, is_succeeded_of,
  with_deployment_status, mark_superseded_deployment, require_deployment_metadata,
  insert_deployment, succeeded_row, insert_succeeded_deployment, with_current,
  set_project_current_deployment, mark_job_succeeded,
}
use ovek.Lifecycle.{IsKeyed, IsWellFormed}
use ovek.Lifecycle.Relinked.{relinked-IsSyncedRow}
use ovek.Lifecycle.Keys.{job_row-update, jobs-IsKeyed, projects-IsKeyed, Synced-IsKeyed}
use ovek.Lifecycle.Steps.{of_project}

-- Only the deployments differ.
abbrev pub with_deployments : Db → List DeploymentRow → Db
with_deployments db rows = record db { deployments = rows }

-- The deployments after markSupersededDeployment.
abbrev pub superseded_rows : String → String → List DeploymentRow → List DeploymentRow
superseded_rows n deployment_id rows =
    if deployment_id == ""
    then rows
    else update_where (is_succeeded_of deployment_id n)
        (with_deployment_status DeploymentStatus.superseded) rows

supersede-ok :
    (n deployment_id : String) (db : Db) {db' : Db}
    → mark_superseded_deployment n deployment_id db ≡ ok db'
    → db' ≡ with_deployments db (superseded_rows n deployment_id db.deployments)
unfolding mark_superseded_deployment
supersede-ok n d db {db'} h = elim (Bool-cases (d == "")) [
  | inl e ↦ rw e (sym (ok_inj _ _ (rw e at h)))
  | inr e ↦
      let (rows, updated, done) =
        bind-ok
          (update_row (is_succeeded_of d n) (with_deployment_status DeploymentStatus.superseded)
            db.deployments)
          _ (rw e at h) in
      let (one, same) =
        update_row-ok (is_succeeded_of d n) (with_deployment_status DeploymentStatus.superseded)
          db.deployments updated in
      rw e (sym (ok_inj _ _ done) ∙ ap (with_deployments db) same)
]

pub insert_deployment-ok :
    (row : DeploymentRow) (db : Db) {db' : Db}
    → insert_deployment row db ≡ ok db'
    → (count_where (is_deployment row.id) db.deployments ≡ 0)
      × (db' ≡ with_deployments db (db.deployments ++ row ∷ []))
unfolding insert_deployment
insert_deployment-ok row db {db'} h =
    elim (Bool-cases (exists_where (is_deployment row.id) db.deployments)) [
      | inl e ↦ cc (rw e at h)
      | inr e ↦ (
        exists_where-false (is_deployment row.id) db.deployments e,
        (elim (Bool-cases (exists_where (has_name row.project_name) db.projects)) [
          | inl k ↦ sym (ok_inj _ _ (rw (e, k) at h))
          | inr k ↦ cc (rw (e, k) at h)
        ]),
      )
    ]

insert_succeeded-ok :
    (job : Job) (result : DeploymentResult) (db : Db) {db' : Db}
    → insert_succeeded_deployment job result db ≡ ok db'
    → insert_deployment (succeeded_row job result) db ≡ ok db'
unfolding insert_succeeded_deployment
insert_succeeded-ok job result db h =
    let (u, required, inserted) =
      bind-ok (require_deployment_metadata result)
        (λ _. insert_deployment (succeeded_row job result) db) h in
    inserted

pub set_current-ok :
    (n d : String) (db : Db) {db' : Db}
    → set_project_current_deployment n d db ≡ ok db'
    → Synced n
        (record db { projects = update_where (has_name n) (with_current (some d)) db.projects })
        db'
unfolding set_project_current_deployment
set_current-ok n d db {db'} h =
    let (rows, updated, done) =
      bind-ok (update_row (has_name n) (with_current (some d)) db.projects) _ h in
    let (one, same) = update_row-ok (has_name n) (with_current (some d)) db.projects updated in
    sync-Synced n
      (record db { projects = update_where (has_name n) (with_current (some d)) db.projects })
      (ap {B = Result Db}
          (λ (rows : List ProjectRow). sync_project_status n (record db { projects = rows }))
          (sym same)
        ∙ done)

module _ (job : Job) (finished_at : String) (result : DeploymentResult) (db : Db) where
  abbrev pub succeeded_jobs : List JobRow
  succeeded_jobs =
      update_where (is_job_at job.id JobStatus.running) (job_succeeded finished_at result) db.jobs

  -- The deployments that a promotion leaves.
  abbrev pub promoted_deployments : List DeploymentRow
  promoted_deployments =
      superseded_rows job.project_name result.superseded_deployment_id db.deployments
      ++ succeeded_row job result ∷ []

  -- The tables before the last sync.
  abbrev pub promoted_db : Db
  promoted_db = record db {
    jobs = succeeded_jobs;
    deployments = promoted_deployments;
    projects = update_where (has_name job.project_name) (with_current (some job.id)) db.projects;
  }

  -- Inversion of a promotion that succeeds.
  pub promotion-steps :
      {db' : Db}
      → mark_job_succeeded job finished_at result db ≡ ok db'
      → (count_where (is_job_at job.id JobStatus.running) db.jobs ≡ 1)
        × (count_where
              (is_deployment job.id)
              (superseded_rows job.project_name result.superseded_deployment_id db.deployments)
            ≡ 0)
        × Synced job.project_name promoted_db db'
  unfolding mark_job_succeeded
  promotion-steps {db'} h =
      let (jobs, updated, h1) =
        bind-ok
          (update_row (is_job_at job.id JobStatus.running) (job_succeeded finished_at result)
            db.jobs)
          _ h in
      let (one, is_jobs) =
        update_row-ok (is_job_at job.id JobStatus.running) (job_succeeded finished_at result)
          db.jobs updated in
      let (db1, superseded, h2) =
        bind-ok
          (mark_superseded_deployment job.project_name result.superseded_deployment_id
            (record db { jobs = jobs }))
          _ h1 in
      let (db2, inserted, h3) = bind-ok (insert_succeeded_deployment job result db1) _ h2 in
      let is_db1 =
        supersede-ok job.project_name result.superseded_deployment_id (record db { jobs = jobs })
          superseded in
      let (new, is_db2) =
        insert_deployment-ok (succeeded_row job result) db1
          (insert_succeeded-ok job result db1 inserted) in
      let is_db2' : db2 ≡ record db { jobs = succeeded_jobs; deployments = promoted_deployments } =
        is_db2
        ∙ ap {B = Db}
            (λ (d : Db). with_deployments d (d.deployments ++ succeeded_row job result ∷ [])) is_db1
        ∙ ap {B = Db}
            (λ (rows : List JobRow). record db { jobs = rows; deployments = promoted_deployments })
            is_jobs in
      (
        one,
        sym (ap (λ (d : Db). count_where (is_deployment job.id) d.deployments) is_db1) ∙ new,
        subst
            (λ (d : Db).
              Synced job.project_name
                (record d {
                  projects =
                      update_where (has_name job.project_name) (with_current (some job.id))
                        d.projects;
                })
                db')
            is_db2' (set_current-ok job.project_name job.id db2 h3),
      )

  pub succeeded-IsKeyed :
      {db' : Db}
      → IsKeyed db.jobs db.projects
      → mark_job_succeeded job finished_at result db ≡ ok db'
      → IsKeyed db'.jobs db'.projects
  succeeded-IsKeyed {db'} keyed h =
      let (one, new, sync) = promotion-steps h in
      Synced-IsKeyed job.project_name promoted_db db' sync (
        projects-IsKeyed succeeded_jobs db.projects (has_name job.project_name)
          (with_current (some job.id)) (λ r. refl)
          (jobs-IsKeyed (is_job_at job.id JobStatus.running) (job_succeeded finished_at result)
            db.jobs (λ j. refl) (λ j. refl) (λ j a k. cc k) keyed))

  -- A promotion of the job that the id finds keeps the tables well-formed.
  pub succeeded-IsWellFormed :
      {db' : Db} (row : JobRow)
      → IsWellFormed db
      → select_row (has_id job.id) db.jobs ≡ some row
      → row.project_name ≡ job.project_name
      → mark_job_succeeded job finished_at result db ≡ ok db'
      → IsWellFormed db'
  succeeded-IsWellFormed {db'} row well found same h =
      let (one, new, sync) = promotion-steps h in
      record {
        keyed = succeeded-IsKeyed well.keyed h;
        synced = sync-IsSynced job.project_name promoted_db db' sync (λ m other. others m other);
      }
    where
      others : (m : String) → m ≢ job.project_name → IsSyncedRow promoted_db m
      others m other =
          relinked-IsSyncedRow job.project_name (with_current (some job.id)) (λ p. refl)
            (record db { jobs = succeeded_jobs }) promoted_db refl refl m other
            (jobs-IsSyncedRow db (is_job_at job.id JobStatus.running)
              (job_succeeded finished_at result) (λ j. refl) job.project_name m
              (λ j mem a.
                of_project db.jobs db.projects well.keyed job.id JobStatus.running row j found mem a
                ∙ same)
              other (well.synced m))

  -- The row of the job after the promotion.
  pub succeeded-row :
      {db' : Db} (row : JobRow)
      → select_row (has_id job.id) db.jobs ≡ some row
      → mark_job_succeeded job finished_at result db ≡ ok db'
      → select_row (has_id job.id) db'.jobs
        ≡ some (changed (is_job_at job.id JobStatus.running) (job_succeeded finished_at result) row)
  succeeded-row {db'} row found h =
      let (one, new, sync) = promotion-steps h in
      ap (λ (d : Db). select_row (has_id job.id) d.jobs) sync.result
      ∙ job_row-update (is_job_at job.id JobStatus.running) (job_succeeded finished_at result)
          db.jobs (λ j. refl) (λ j. refl) job.id
      ∙ ap (changed_option (is_job_at job.id JobStatus.running) (job_succeeded finished_at result))
          found
