-- ===== src/ProjectRuntime.antt =====
-- The start, stop and restart of a project's app, and the view of its runtime:
-- cmd/brain/project_runtime.go. The log readers are not modelled.
pub mod Status
use ovek.Common.{
  String, Bool, true, false, Option, none, some, List, trim_space, ◌==◌, if◌then◌else◌,
}
use ovek.Store.{Db, ProjectRow, DeploymentRow, ProjectStatus}
use ovek.Store.Sql.{select_row}
use ovek.Projects.{has_name, project_exists, set_project_status}
use ovek.Worker.{get_project_current_deployment}
use ovek.Runtime.{
  RuntimeError, ServiceError, err_project_not_found, err_project_runtime_not_found, runtime_failed,
  DeploymentRecord, ProjectAppRuntime, scan_deployment_record, Call, Answer, Flow, ◌>>=◌, ◌>>◌,
  return, refuse, if_present, call, ask, transact,
}
use ovek.Reconcile.{find_project_app_by_deployment_id}

pub record ProjectRuntimeContainer : Type 0 where
  pub container_name : String
  pub running : Bool

pub record ProjectRuntimeNetwork : Type 0 where
  pub name : String

pub record ProjectRuntimeApp : Type 0 where
  pub container_name : String
  pub image_ref : String
  pub running : Bool

-- projectRuntimeView
pub record ProjectRuntimeView : Type 0 where
  pub project_name : String
  pub current_deployment_id : Option String
  pub app : Option ProjectRuntimeApp
  pub pocket_base : Option ProjectRuntimeContainer
  pub network : Option ProjectRuntimeNetwork

-- managedProjectRuntimeService: projectRuntimeReader, and the ingress, which may be nil.
-- WaitForProjectAppReady takes the id and the project of the job that it is given.
pub record RuntimeService (W : Type 0) : Type 0 where
  pub list_project_apps : String → W → Answer RuntimeError (List ProjectAppRuntime) × W
  pub get_project_pocket_base_runtime :
      String → W → Answer RuntimeError (Option ProjectRuntimeContainer) × W
  pub get_project_network_runtime :
      String → W → Answer RuntimeError (Option ProjectRuntimeNetwork) × W
  pub start_project_app : DeploymentRecord → Call RuntimeError W
  pub stop_project_app : DeploymentRecord → Call RuntimeError W
  pub wait_for_project_app_ready : String → String → Call RuntimeError W
  pub remove_project_ingress : Option (String → Call RuntimeError W)
  pub sync_project_ingress : Option (String → Call RuntimeError W)

-- The app of the view, by the current deployment and the apps that the runtime lists.
unfoldable pub app_view : DeploymentRow → List ProjectAppRuntime → ProjectRuntimeApp
app_view deployment apps = elim (find_project_app_by_deployment_id apps deployment.id) [
  | none ↦ record {
    container_name = deployment.app_container_name;
    image_ref = deployment.image_ref;
    running = false;
  }
  | some app ↦ record {
    container_name = app.app_container_name;
    image_ref = app.image_ref;
    running = app.running;
  }
]

-- getProject of cmd/brain/projects.go, with the error of the service for a missing row
unfoldable pub get_project : {W : Type 0} → String → Flow W ProjectRow
get_project project_name w db = elim (select_row (has_name project_name) db.projects) [
  | none ↦ refuse err_project_not_found w db
  | some project ↦ return project w db
]

module _ {W : Type 0} (service : RuntimeService W) where
  unfoldable pub app_of_view : String → List ProjectAppRuntime → Flow W (Option ProjectRuntimeApp)
  app_of_view project_name apps w db = elim (get_project_current_deployment project_name db) [
    | none ↦ return none w db
    | some deployment ↦ return (some (app_view deployment apps)) w db
  ]

  unfoldable pub get_runtime : String → Flow W ProjectRuntimeView
  get_runtime project_name = do
    project ← get_project project_name
    apps ← ask (service.list_project_apps project_name)
    app ← app_of_view project_name apps
    pocket_base ← ask (service.get_project_pocket_base_runtime project_name)
    network ← ask (service.get_project_network_runtime project_name)
    return (record {
      project_name = project.name;
      current_deployment_id = project.current_deployment_id;
      app = app;
      pocket_base = pocket_base;
      network = network;
    })

  unfoldable pub current_deployment : String → Flow W DeploymentRecord
  current_deployment project_name w db =
      if project_exists project_name db
      then (elim (get_project_current_deployment project_name db) [
        | none ↦ refuse err_project_runtime_not_found w db
        | some deployment ↦ return (scan_deployment_record deployment) w db
      ])
      else refuse err_project_not_found w db

  unfoldable pub stop_app : String → DeploymentRecord → Flow W (Unit {0})
  stop_app project_name deployment = do
    call runtime_failed (service.stop_project_app deployment)
    if_present service.remove_project_ingress
        (λ remove_project. call runtime_failed (remove_project project_name))

  unfoldable pub start_app : String → DeploymentRecord → Flow W (Unit {0})
  start_app project_name deployment = do
    call runtime_failed (service.start_project_app deployment)
    call runtime_failed (service.wait_for_project_app_ready deployment.id project_name)
    if_present service.sync_project_ingress
        (λ sync_project. call runtime_failed (sync_project project_name))

  -- The end of the three operations.
  unfoldable pub settle : String → ProjectStatus → Flow W ProjectRuntimeView
  settle project_name status =
      transact (set_project_status project_name status) >>= λ _. get_runtime project_name

  unfoldable pub stop_runtime : String → Flow W ProjectRuntimeView
  stop_runtime project_name = do
    deployment ← current_deployment project_name
    stop_app project_name deployment
    settle project_name ProjectStatus.stopped

  unfoldable pub start_runtime : String → Flow W ProjectRuntimeView
  start_runtime project_name = do
    deployment ← current_deployment project_name
    start_app project_name deployment
    settle project_name ProjectStatus.running

  unfoldable pub restart_runtime : String → Flow W ProjectRuntimeView
  restart_runtime project_name = do
    deployment ← current_deployment project_name
    stop_app project_name deployment
    start_app project_name deployment
    settle project_name ProjectStatus.running
