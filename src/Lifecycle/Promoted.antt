-- ===== src/Lifecycle/Promoted.antt =====
-- What markJobSucceeded (cmd/brain/worker.go) leaves as the current and the superseded deployment.
use ovek.Common.{
  ◌≡◌, ◌≢◌, refl, sym, ap, ◌∙◌, String, Bool, false, none, some, arith, eq_refl, Option-cases, inl,
  inr, if◌then◌else◌,
}
use mathlib.Core.Option.{some-injective}
use ovek.Store.{
  Db, ProjectRow, DeploymentRow, DeploymentStatus, deployment_status_eq, ProjectStatus, Job,
}
use ovek.Store.Sql.{ok, select_row, count_where, update_where}
use ovek.Store.Laws.{changed, changed_option, select_row-update, select_row-holds}
use ovek.Store.Rows.{select_row-count_zero, select_row-snoc_none, count-snoc, count-update_clears}
use ovek.Projects.{has_name, row_status, with_status}
use ovek.Projects.Frames.{==-false}
use ovek.Worker.{
  DeploymentResult, is_deployment, is_succeeded_of, with_deployment_status, succeeded_row,
  with_current, mark_job_succeeded, get_project_current_deployment,
}
use ovek.Lifecycle.Promotion.{superseded_rows, promoted_db, promotion-steps}

current-found :
    (n d : String) (db : Db) (p : ProjectRow)
    → select_row (has_name n) db.projects ≡ some p
    → p.current_deployment_id ≡ some d
    → get_project_current_deployment n db ≡ select_row (is_deployment d) db.deployments
unfolding get_project_current_deployment
current-found n d db p e c = rw (e, c, get_project_current_deployment)

module _ (job : Job) (finished_at : String) (result : DeploymentResult) (db : Db) where
  current_row :
      (n d : String) (p : ProjectRow)
      → select_row (has_name n) (update_where (has_name n) (with_current (some d)) db.projects)
        ≡ some p
      → p.current_deployment_id ≡ some d
  current_row n d p found = elim (Option-cases (select_row (has_name n) db.projects)) [
    | inl e ↦ cc (found, row_was, e)
    | inr (q, e) ↦
        let p_is =
          some-injective _ _
            (sym found ∙ row_was ∙ ap (changed_option (has_name n) (with_current (some d))) e) in
        rw (p_is, select_row-holds (has_name n) db.projects q e)
  ]
    where
      row_was :
          select_row (has_name n) (update_where (has_name n) (with_current (some d)) db.projects)
          ≡ changed_option
              (has_name n)
              (with_current (some d))
              (select_row (has_name n) db.projects)
      row_was =
          select_row-update (has_name n) (has_name n) (with_current (some d)) db.projects
            (λ x a. refl)

  -- After a promotion the current deployment of the project is the job's own, with the image and the
  -- containers of the result.
  pub current-promoted :
      {db' : Db}
      → mark_job_succeeded job finished_at result db ≡ ok db'
      → get_project_current_deployment job.project_name db' ≡ some (succeeded_row job result)
  current-promoted {db'} h =
      let (one, new, sync) = promotion-steps job finished_at result db h in
      let n = job.project_name in
      current-found n job.id db'
        (changed (has_name n)
          (with_status (row_status (promoted_db job finished_at result db) sync.row)) sync.row)
        (ap (λ (d : Db). select_row (has_name n) d.projects) sync.result
          ∙ select_row-update (has_name n) (has_name n)
              (with_status (row_status (promoted_db job finished_at result db) sync.row))
              (promoted_db job finished_at result db).projects (λ x a. refl)
          ∙ ap
              (changed_option (has_name n)
                (with_status (row_status (promoted_db job finished_at result db) sync.row)))
              sync.found)
        (same_current (row_status (promoted_db job finished_at result db) sync.row) sync.row
          ∙ current_row n job.id sync.row sync.found)
      ∙ ap (λ (d : Db). select_row (is_deployment job.id) d.deployments) sync.result
      ∙ select_row-snoc_none (is_deployment job.id)
          (superseded_rows n result.superseded_deployment_id db.deployments)
          (succeeded_row job result)
          (select_row-count_zero (is_deployment job.id)
            (superseded_rows n result.superseded_deployment_id db.deployments) new)
      ∙ ap (λ (b : Bool). if b then some (succeeded_row job result) else none) (eq_refl job.id)
    where
      same_current :
          (s : ProjectStatus) (r : ProjectRow)
          → (changed (has_name job.project_name) (with_status s) r).current_deployment_id
            ≡ r.current_deployment_id
      same_current s r = ground arith

  -- After a promotion the deployment that it replaces is no longer a succeeded one of the project.
  pub superseded-promoted :
      {db' : Db}
      → result.superseded_deployment_id ≢ ""
      → result.superseded_deployment_id ≢ job.id
      → mark_job_succeeded job finished_at result db ≡ ok db'
      → count_where
          (is_succeeded_of result.superseded_deployment_id job.project_name)
          db'.deployments
        ≡ 0
  unfolding deployment_status_eq
  superseded-promoted {db'} given other h =
      let (one, new, sync) = promotion-steps job finished_at result db h in
      let d = result.superseded_deployment_id in
      let q = is_succeeded_of d job.project_name in
      ap (λ (x : Db). count_where q x.deployments) sync.result
      ∙ count-snoc q (superseded_rows job.project_name d db.deployments) (succeeded_row job result)
      ∙ rw
          (
            ==-false d "" given,
            ==-false job.id d (λ e. other (sym e)),
            count-update_clears q (with_deployment_status DeploymentStatus.superseded)
                db.deployments (λ x. cleared x),
          )
          (omega arith)
    where
      cleared :
          (x : DeploymentRow)
          → is_succeeded_of result.superseded_deployment_id job.project_name
              (with_deployment_status DeploymentStatus.superseded x)
            ≡ false
      cleared x = ground arith
