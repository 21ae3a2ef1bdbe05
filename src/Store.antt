-- ===== src/Store.antt =====
-- The tables of the database that cmd/brain/db.go migrates, each a list of rows in the order in
-- which they were inserted. A column that may be NULL is an `Option`.
pub mod Sql
pub mod Laws
pub mod Rows
pub mod Changes
pub mod Order
use ovek.Common.{ℕ, String, Bool, true, false, Option, List}

-- A project's status (cmd/brain/project_status.go).
pub data ProjectStatus : Type 0 where
  idle deploying running stopped failed : ProjectStatus

pub data JobStatus : Type 0 where
  queued running succeeded failed : JobStatus

pub data DeploymentStatus : Type 0 where
  succeeded superseded : DeploymentStatus

pub data WorkflowRunStatus : Type 0 where
  queued preparing running succeeded failed skipped canceled timed_out : WorkflowRunStatus

unfoldable pub job_status_eq : JobStatus → JobStatus → Bool
job_status_eq queued queued = true
job_status_eq running running = true
job_status_eq succeeded succeeded = true
job_status_eq failed failed = true
job_status_eq _ _ = false

unfoldable pub deployment_status_eq : DeploymentStatus → DeploymentStatus → Bool
deployment_status_eq succeeded succeeded = true
deployment_status_eq superseded superseded = true
deployment_status_eq _ _ = false

unfoldable pub run_status_eq : WorkflowRunStatus → WorkflowRunStatus → Bool
run_status_eq queued queued = true
run_status_eq preparing preparing = true
run_status_eq running running = true
run_status_eq succeeded succeeded = true
run_status_eq failed failed = true
run_status_eq skipped skipped = true
run_status_eq canceled canceled = true
run_status_eq timed_out timed_out = true
run_status_eq _ _ = false

pub record ProjectRow : Type 0 where
  pub name : String
  pub status : ProjectStatus
  pub current_deployment_id : Option String
  pub created_at : String

pub record DeploymentRow : Type 0 where
  pub id : String
  pub project_name : String
  pub image_ref : String
  pub app_container_name : String
  pub network_name : String
  pub pb_container_name : String
  pub status : DeploymentStatus
  pub created_at : String
  pub config_revision_id : Option String
  pub source_type : Option String
  pub source_ref : Option String

pub record JobRow : Type 0 where
  pub id : String
  pub project_name : String
  pub repo_url : String
  pub status : JobStatus
  pub log_path : Option String
  pub image_ref : Option String
  pub error_message : Option String
  pub created_at : String
  pub started_at : Option String
  pub finished_at : Option String
  pub config_revision_id : Option String
  pub phase : Option String
  pub source_type : Option String
  pub source_ref : Option String

pub record RevisionRow : Type 0 where
  pub id : String
  pub project_name : String
  pub created_at : String
  pub created_by : Option String
  pub reason : String

pub record WorkflowRow : Type 0 where
  pub project_name : String
  pub name : String
  pub source_image_ref : String
  pub resolved_repo_digest : Option String
  pub runtime_image_id : Option String
  pub schedule : Option String
  pub queue_cap : ℕ
  pub enabled : Bool
  pub created_at : String
  pub updated_at : String

pub record WorkflowRunRow : Type 0 where
  pub id : String
  pub project_name : String
  pub workflow_name : String
  pub trigger_type : String
  pub status : WorkflowRunStatus
  pub config_revision_id : Option String
  pub log_path : Option String
  pub source_image_ref : String
  pub resolved_repo_digest : Option String
  pub runtime_image_id : Option String
  pub exit_code : Option ℕ
  pub error_message : Option String
  pub created_at : String
  pub started_at : Option String
  pub finished_at : Option String
  pub payload_json : Option String
  pub idempotency_key : Option String
  pub trigger_token_id : Option String

pub record TriggerTokenRow : Type 0 where
  pub id : String
  pub project_name : String
  pub workflow_name : String
  pub label : String
  pub token_hash : String
  pub created_at : String
  pub last_used_at : Option String
  pub revoked_at : Option String

pub record Db : Type 0 where
  pub projects : List ProjectRow
  pub deployments : List DeploymentRow
  pub jobs : List JobRow
  pub project_config_revisions : List RevisionRow
  pub workflows : List WorkflowRow
  pub workflow_runs : List WorkflowRunRow
  pub workflow_trigger_tokens : List TriggerTokenRow

pub record JobLinks : Type 0 where
  pub self : String
  pub logs : String
  pub logs_stream : String

-- The struct `Job` of internal/brainapi/types.go.
pub record Job : Type 0 where
  pub id : String
  pub job_type : String
  pub project_name : String
  pub repo_url : String
  pub source_type : String
  pub source_ref : String
  pub status : JobStatus
  pub phase : String
  pub log_path : String
  pub image_ref : String
  pub error_message : String
  pub created_at : String
  pub started_at : String
  pub finished_at : String
  pub config_revision_id : String
  pub links : JobLinks

-- What an operation on the database reports when it fails. The transaction is then rolled back.
pub data Failure : Type 0 where
  -- a primary key, unique index or foreign key refuses the statement
  constraint_failed : Failure
  -- sql.ErrNoRows
  err_no_rows : Failure
  -- requireUpdatedRow: the number of rows was not 1
  unexpected_rows : ℕ → Failure
  -- requireDeploymentMetadata
  missing_metadata : String → Failure
  -- activeDeploymentJobError, with the active job
  active_deployment : Job → Failure
  err_workflow_not_found : Failure
  err_workflow_queue_full : Failure
  err_invalid_workflow_trigger_token : Failure
  err_workflow_trigger_token_not_found : Failure
  label_required : Failure
  err_auth_bootstrap_disabled : Failure
  err_invalid_api_key : Failure
  -- authFailureError, with its reason
  auth_failure : String → Failure
  err_api_key_not_found : Failure
  err_invalid_password : Failure
  err_reauth_required : Failure
  api_key_label_required : Failure
  -- the key derivation of hashPassword
  derivation_failed : Failure
  -- the checks of validateProjectEnvName and validateProjectEnvValue
  env_name_required : Failure
  env_name_too_long : Failure
  env_name_pattern : Failure
  env_name_reserved : Failure
  env_value_too_long : Failure
  err_project_env_not_found : Failure
  -- secretCipher
  cipher_failed : Failure
