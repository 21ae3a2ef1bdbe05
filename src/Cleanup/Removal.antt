-- ===== src/Cleanup/Removal.antt =====
-- Cleanup and RemoveRuntime of cmd/brain/cleanup.go. Paths, files and the registry are the world's.
use ovek.Common.{
  ℕ, String, Bool, not, ◌&&◌, Option, none, some, List, [], ◌∷◌, ◌++◌, ◌==◌, trim_space,
  starts_with, text_append, if◌then◌else◌,
}
use ovek.Store.{Db}
use ovek.Store.Sql.{ok}
use ovek.Projects.{project_exists}
use ovek.Workflows.{clear_project_workflow_state}
use ovek.Runtime.{
  RuntimeError, ContextError, err_project_not_found, requires_database_removal, runtime_failed,
  teardown_failed, DeploymentRecord, ProjectAppRuntime, deployment_record, Call, Answer, Flow,
  ◌>>=◌, ◌>>◌, return, refuse, if_present, call, attempt, ask, transact,
}
use ovek.Cleanup.Retry.{retry_runtime_teardown}
use ovek.Cleanup.Listing.{
  list_project_deployment_image_refs, list_project_job_log_paths, list_project_workflow_log_paths,
  list_project_workflow_payload_paths, dedupe_strings, clear_project_runtime_state,
}

-- projectCleanupRuntime
pub record CleanupRuntime (W : Type 0) : Type 0 where
  pub list_project_apps : String → W → Answer RuntimeError (List ProjectAppRuntime) × W
  pub remove_project_app : DeploymentRecord → Call RuntimeError W
  pub remove_project_workflow_containers : String → Call RuntimeError W
  pub remove_project_pocket_base : String → Call RuntimeError W
  pub remove_project_network : String → Call RuntimeError W

-- managedProjectCleaner, less its database, with what it calls of filepath, os and time. An
-- ingress or an artifact cleaner may be nil.
pub record Cleaner (W : Type 0) : Type 0 where
  pub data_dir : String
  pub projects_host_data_dir : String
  pub runtime : CleanupRuntime W
  pub cleanup_image : Option (String → Call RuntimeError W)
  pub remove_project_ingress : Option (String → Call RuntimeError W)
  pub sleep : ℕ → Call ContextError W
  pub remove : String → Call RuntimeError W
  pub remove_all : String → Call RuntimeError W
  pub abs : String → Option String
  pub rel : String → String → Option String
  pub join : List String → String

pub record RuntimeRemovalOptions : Type 0 where
  pub remove_database : Bool
  pub delete_database_data : Bool

module _ {W : Type 0} (cleaner : Cleaner W) where
  -- The loop of managedJobLogPath.
  unfoldable pub find_base_dir : String → List String → Option String
  find_base_dir candidate_path [] = none
  find_base_dir candidate_path (logs_dir_name ∷ names) =
      let rest = find_base_dir candidate_path names in
      elim (cleaner.abs (cleaner.join (cleaner.data_dir ∷ logs_dir_name ∷ []))) [
        | none ↦ none
        | some base_dir ↦ (elim (cleaner.rel base_dir candidate_path) [
          | none ↦ none
          | some relative_path ↦
              if not (relative_path == ".")
                && (not (relative_path == "..") && not (starts_with relative_path "../"))
              then some candidate_path
              else rest
        ])
      ]

  unfoldable pub managed_job_log_path : String → Option String
  managed_job_log_path given_path =
      let log_path = trim_space given_path in
      if log_path == "" then none else elim (cleaner.abs log_path) [
        | none ↦ none
        | some candidate_path ↦
            find_base_dir candidate_path ("job-logs" ∷ "workflow-logs" ∷ "workflow-payloads" ∷ [])
      ]

  -- The loop of cleanupProjectLogFiles.
  unfoldable pub remove_log_files : List String → Flow W (Unit {0})
  remove_log_files [] = return tt
  remove_log_files (log_path ∷ log_paths) =
      if_present (managed_job_log_path log_path)
        (λ managed_log_path. attempt (cleaner.remove managed_log_path))
      >> remove_log_files log_paths

  unfoldable pub cleanup_project_log_files : List String → Flow W (Unit {0})
  cleanup_project_log_files log_paths = remove_log_files (dedupe_strings log_paths)

  unfoldable pub cleanup_images : (String → Call RuntimeError W) → List String → Flow W (Unit {0})
  cleanup_images cleanup_image [] = return tt
  cleanup_images cleanup_image (image_ref ∷ image_refs) =
      attempt (cleanup_image image_ref) >> cleanup_images cleanup_image image_refs

  unfoldable pub cleanup_project_images : List String → Flow W (Unit {0})
  cleanup_project_images image_refs =
      if_present cleaner.cleanup_image
        (λ cleanup_image. cleanup_images cleanup_image (dedupe_strings image_refs))

  unfoldable pub tear_down : Call RuntimeError W → Flow W (Unit {0})
  tear_down teardown = call teardown_failed (retry_runtime_teardown cleaner.sleep teardown)

  unfoldable pub require_project : String → Flow W (Unit {0})
  require_project project_name w db =
      if project_exists project_name db then return tt w db else refuse err_project_not_found w db

  unfoldable pub remove_apps : List ProjectAppRuntime → Flow W (Unit {0})
  remove_apps [] = return tt
  remove_apps (app ∷ apps) =
      tear_down (cleaner.runtime.remove_project_app (deployment_record app)) >> remove_apps apps

  -- Cleanup up to the first change of the database.
  unfoldable pub tear_down_project : String → Flow W (Unit {0})
  tear_down_project project_name = do
    require_project project_name
    apps ← ask (cleaner.runtime.list_project_apps project_name)
    remove_apps apps
    tear_down (cleaner.runtime.remove_project_workflow_containers project_name)
    tear_down (cleaner.runtime.remove_project_pocket_base project_name)
    tear_down (cleaner.runtime.remove_project_network project_name)

  unfoldable pub remove_ingress : String → Flow W (Unit {0})
  remove_ingress project_name =
      if_present cleaner.remove_project_ingress
        (λ remove_project. attempt (remove_project project_name))

  abbrev pub payload_path : String → String
  payload_path run_id =
      cleaner.join (cleaner.data_dir ∷ "workflow-payloads" ∷ text_append run_id ".json" ∷ [])

  unfoldable pub project_file_paths : String → Db → List String
  project_file_paths project_name db =
      list_project_job_log_paths project_name db
      ++ list_project_workflow_log_paths project_name db
      ++ list_project_workflow_payload_paths payload_path project_name db

  unfoldable pub cleanup : String → Flow W (Unit {0})
  cleanup project_name w db =
      (do
        tear_down_project project_name
        transact (clear_project_runtime_state project_name)
        transact (λ db1. ok (clear_project_workflow_state project_name db1))
        remove_ingress project_name
        cleanup_project_images (list_project_deployment_image_refs project_name db)
        cleanup_project_log_files (project_file_paths project_name db))
        w db

  -- RemoveRuntime up to its change of the database.
  unfoldable pub tear_down_apps : String → Flow W (Unit {0})
  tear_down_apps project_name = do
    require_project project_name
    apps ← ask (cleaner.runtime.list_project_apps project_name)
    remove_apps apps
    if_present cleaner.remove_project_ingress
        (λ remove_project. call runtime_failed (remove_project project_name))

  -- RemoveRuntime after its change of the database.
  unfoldable pub tear_down_database : String → RuntimeRemovalOptions → Flow W (Unit {0})
  tear_down_database project_name options = if not options.remove_database then return tt else do
    tear_down (cleaner.runtime.remove_project_pocket_base project_name)
    if options.delete_database_data
        then call runtime_failed (
            cleaner.remove_all
              (cleaner.join (cleaner.projects_host_data_dir ∷ project_name ∷ "pb_data" ∷ [])))
        else return tt
    tear_down (cleaner.runtime.remove_project_network project_name)

  unfoldable pub remove_runtime : String → RuntimeRemovalOptions → Flow W (Unit {0})
  remove_runtime project_name options =
      if options.delete_database_data && not options.remove_database
      then refuse requires_database_removal
      else do
        tear_down_apps project_name
        transact (clear_project_runtime_state project_name)
        tear_down_database project_name options
