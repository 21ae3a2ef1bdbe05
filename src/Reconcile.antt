-- ===== src/Reconcile.antt =====
-- The reconciliation of the deployments with the containers that run, at the start:
-- cmd/brain/reconcile.go.
pub mod Settled
pub mod Startup
pub mod Adoption
use ovek.Common.{
  ℕ, String, Bool, true, false, not, ◌&&◌, Option, none, some, List, [], ◌∷◌, ◌++◌, ◌==◌, map,
  text_lt, if◌then◌else◌,
}
use ovek.Store.{
  Db, ProjectRow, DeploymentRow, DeploymentStatus, deployment_status_eq, constraint_failed,
}
use ovek.Store.Sql.{
  Result, ok, err, ◌>>=◌ as ◌>>>=◌, exists_where, update_where, update_row, order_by,
}
use ovek.Projects.{has_name}
use ovek.Worker.{
  is_deployment, with_deployment_status, set_project_current_deployment,
  get_project_current_deployment, insert_deployment,
}
use ovek.Runtime.{
  RuntimeError, runtime_failed, ServiceError, DeploymentRecord, ProjectAppRuntime,
  deployment_record, Call, Answer, done, refused, Flow, ◌>>=◌, ◌>>◌, return, call, ask, transact,
}

-- deploymentReconcilerRuntime
pub record ReconcilerRuntime (W : Type 0) : Type 0 where
  pub list_project_apps : String → W → Answer RuntimeError (List ProjectAppRuntime) × W
  pub remove_project_app : DeploymentRecord → Call RuntimeError W

unfoldable pub filter_running_project_apps : List ProjectAppRuntime → List ProjectAppRuntime
filter_running_project_apps [] = []
filter_running_project_apps (app ∷ apps) =
    let rest = filter_running_project_apps apps in if app.running then app ∷ rest else rest

unfoldable pub find_project_app_by_deployment_id :
    List ProjectAppRuntime → String → Option ProjectAppRuntime
find_project_app_by_deployment_id [] deployment_id = none
find_project_app_by_deployment_id (app ∷ apps) deployment_id =
    let rest = find_project_app_by_deployment_id apps deployment_id in
    if app.deployment_id == deployment_id then some app else rest

unfoldable pub list_project_names : Db → List String
list_project_names db =
    map (λ p. p.name)
      (order_by (λ (a : ProjectRow) (b : ProjectRow). text_lt a.name b.name) db.projects)

-- id = ? AND project_name = ?
abbrev pub is_deployment_of : String → String → DeploymentRow → Bool
is_deployment_of project_name deployment_id d =
    d.id == deployment_id && d.project_name == project_name

unfoldable pub set_deployment_status : String → String → DeploymentStatus → Db → Result Db
set_deployment_status project_name deployment_id status db =
    elim (update_row (is_deployment_of project_name deployment_id) (with_deployment_status status)
      db.deployments) [
        | err failure ↦ err failure
        | ok deployments ↦ ok (record db { deployments = deployments })
      ]

-- project_name = ? AND id <> ? AND status = 'succeeded'
abbrev pub is_other_succeeded : String → String → DeploymentRow → Bool
is_other_succeeded project_name keep_deployment_id d =
    d.project_name == project_name
    && (not (d.id == keep_deployment_id)
        && deployment_status_eq d.status DeploymentStatus.succeeded)

unfoldable pub supersede_other_project_deployments : String → String → Db → Db
supersede_other_project_deployments project_name keep_deployment_id db = record db {
  deployments =
      update_where (is_other_succeeded project_name keep_deployment_id)
        (with_deployment_status DeploymentStatus.superseded) db.deployments;
}

-- The three statements that normalizeProjectCurrentDeployment and promoteProjectAppRuntime share.
unfoldable pub make_current : String → String → Db → Result Db
make_current project_name deployment_id db =
    set_deployment_status project_name deployment_id DeploymentStatus.succeeded db >>>= λ db1.
    set_project_current_deployment project_name deployment_id
      (supersede_other_project_deployments project_name deployment_id db1)

unfoldable pub normalize_project_current_deployment : DeploymentRow → Db → Result Db
normalize_project_current_deployment deployment db =
    make_current deployment.project_name deployment.id db

-- DO UPDATE SET
abbrev pub overwritten_deployment : ProjectAppRuntime → DeploymentRow → DeploymentRow
overwritten_deployment app d = record d {
  image_ref = app.image_ref;
  app_container_name = app.app_container_name;
  network_name = app.network_name;
  pb_container_name = app.pocket_base_container_name;
}

abbrev pub adopted_deployment : ProjectAppRuntime → DeploymentRow
adopted_deployment app = record {
  id = app.deployment_id;
  project_name = app.project_name;
  image_ref = app.image_ref;
  app_container_name = app.app_container_name;
  network_name = app.network_name;
  pb_container_name = app.pocket_base_container_name;
  status = DeploymentStatus.succeeded;
  created_at = app.created_at;
  config_revision_id = none;
  source_type = none;
  source_ref = none;
}

-- INSERT … ON CONFLICT(id) DO UPDATE, which changes one row.
unfoldable pub upsert_deployment : ProjectAppRuntime → Db → Result Db
upsert_deployment app db =
    if exists_where (is_deployment app.deployment_id) db.deployments
    then ok (record db {
      deployments =
          update_where (is_deployment app.deployment_id) (overwritten_deployment app)
            db.deployments;
    })
    else insert_deployment (adopted_deployment app) db

unfoldable pub promote_project_app_runtime : ProjectAppRuntime → Db → Result Db
promote_project_app_runtime app db =
    upsert_deployment app db >>>= make_current app.project_name app.deployment_id

module _ {W : Type 0} (runtime : ReconcilerRuntime W) where
  unfoldable pub remove_other_project_apps : List ProjectAppRuntime → String → Flow W (Unit {0})
  remove_other_project_apps [] keep_deployment_id = return tt
  remove_other_project_apps (app ∷ apps) keep_deployment_id =
      let rest = remove_other_project_apps apps keep_deployment_id in
      if app.deployment_id == keep_deployment_id
      then rest
      else call runtime_failed (runtime.remove_project_app (deployment_record app)) >> rest

  -- reconcileProject after its look for the current deployment among the running apps.
  unfoldable pub adopt_running : List ProjectAppRuntime → List ProjectAppRuntime → Flow W (Unit {0})
  adopt_running apps (running_app ∷ []) = do
    transact (promote_project_app_runtime running_app)
    remove_other_project_apps apps running_app.deployment_id
  adopt_running apps _ = return tt

  unfoldable pub reconcile_apps : Option DeploymentRow → List ProjectAppRuntime → Flow W (Unit {0})
  reconcile_apps none apps = adopt_running apps (filter_running_project_apps apps)
  reconcile_apps (some current_deployment) apps =
      let running_apps = filter_running_project_apps apps in
      elim (find_project_app_by_deployment_id running_apps current_deployment.id) [
        | none ↦ adopt_running apps running_apps
        | some _ ↦
            transact (normalize_project_current_deployment current_deployment)
            >> remove_other_project_apps apps current_deployment.id
      ]

  unfoldable pub reconcile_project : String → Flow W (Unit {0})
  reconcile_project project_name w db =
      (ask (runtime.list_project_apps project_name) >>= λ apps.
      reconcile_apps (get_project_current_deployment project_name db) apps)
        w db

  -- The loop of Reconcile, where an error of one project is only logged.
  unfoldable pub reconcile_all : List String → Flow W (Unit {0})
  reconcile_all [] w db = (done tt, w, db)
  reconcile_all (project_name ∷ project_names) w db =
      let (_, w', db') = reconcile_project project_name w db in reconcile_all project_names w' db'

  unfoldable pub reconcile : Flow W (Unit {0})
  reconcile w db = reconcile_all (list_project_names db) w db
