-- ===== src/Cleanup/Listing.antt =====
-- What a cleanup reads of the database before it removes anything, and what it clears in it: the
-- statements of cmd/brain/cleanup.go and cmd/brain/registry_cleanup.go.
use ovek.Common.{
  String, Bool, true, false, ◌&&◌, Option, none, some, List, [], ◌∷◌, ◌==◌, map, text_lt,
  if◌then◌else◌,
}
use ovek.Store.{Db, DeploymentRow, DeploymentStatus, deployment_status_eq, JobRow, WorkflowRunRow}
use ovek.Store.Sql.{Result, select, update_where, order_by}
use ovek.Jobs.{job_source_type_repo}
use ovek.Projects.{has_name, sync_project_status}
use ovek.Worker.{with_deployment_status, with_current}

-- source_type IS NULL OR source_type = ?
abbrev pub has_repo_source : Option String → Bool
has_repo_source none = true
has_repo_source (some source_type) = source_type == job_source_type_repo

unfoldable pub list_project_deployment_image_refs : String → Db → List String
list_project_deployment_image_refs project_name db =
    map (λ row. row.image_ref)
      (order_by (λ (a : DeploymentRow) (b : DeploymentRow). text_lt a.created_at b.created_at)
        (select (λ row. row.project_name == project_name && has_repo_source row.source_type)
          db.deployments))

-- The scan of a column that may be NULL, which skips one that is.
unfoldable pub valid_paths : List (Option String) → List String
valid_paths [] = []
valid_paths (none ∷ columns) = valid_paths columns
valid_paths (some log_path ∷ columns) = log_path ∷ valid_paths columns

unfoldable pub list_project_job_log_paths : String → Db → List String
list_project_job_log_paths project_name db = valid_paths (
    map (λ row. row.log_path)
      (order_by (λ (a : JobRow) (b : JobRow). text_lt a.created_at b.created_at)
        (select (λ row. row.project_name == project_name) db.jobs)))

-- ORDER BY created_at ASC
abbrev pub earlier_run : WorkflowRunRow → WorkflowRunRow → Bool
earlier_run a b = text_lt a.created_at b.created_at

unfoldable pub list_project_workflow_log_paths : String → Db → List String
list_project_workflow_log_paths project_name db = valid_paths (
    map (λ row. row.log_path)
      (order_by earlier_run (select (λ row. row.project_name == project_name) db.workflow_runs)))

-- With workflowPayloadPath, which joins paths.
unfoldable pub list_project_workflow_payload_paths : (String → String) → String → Db → List String
list_project_workflow_payload_paths workflow_payload_path project_name db =
    map (λ row. workflow_payload_path row.id)
      (order_by earlier_run (select (λ row. row.project_name == project_name) db.workflow_runs))

abbrev pub is_seen : String → List String → Bool
is_seen value [] = false
is_seen value (other ∷ seen) = if value == other then true else is_seen value seen

-- The loop of dedupeStrings, with the values that were seen.
unfoldable pub dedupe_from : List String → List String → List String
dedupe_from seen [] = []
dedupe_from seen (value ∷ values) =
    let others = dedupe_from seen values in
    let rest = dedupe_from (value ∷ seen) values in
    if is_seen value seen then others else value ∷ rest

unfoldable pub dedupe_strings : List String → List String
dedupe_strings values = dedupe_from [] values

-- project_name = ? AND status = 'succeeded'
abbrev pub is_succeeded_in : String → DeploymentRow → Bool
is_succeeded_in project_name d =
    d.project_name == project_name && deployment_status_eq d.status DeploymentStatus.succeeded

unfoldable pub clear_project_runtime_state : String → Db → Result Db
clear_project_runtime_state project_name db = sync_project_status project_name (record db {
  deployments =
      update_where (is_succeeded_in project_name)
        (with_deployment_status DeploymentStatus.superseded) db.deployments;
  projects = update_where (has_name project_name) (with_current none) db.projects;
})
