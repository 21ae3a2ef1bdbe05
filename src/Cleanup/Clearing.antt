-- ===== src/Cleanup/Clearing.antt =====
-- The database after a cleanup: clearProjectRuntimeState and clearProjectWorkflowState of
-- cmd/brain/cleanup.go, one after the other.
use ovek.Common.{
  ℕ, ◌≡◌, refl, sym, ap, ◌∙◌, arith, String, Bool, true, false, ◌&&◌, Option, none, some, List,
  ◌==◌, nat_eq_iff,
}
use ovek.Store.{
  Db, ProjectRow, DeploymentRow, ProjectStatus, JobStatus, DeploymentStatus, deployment_status_eq,
}
use ovek.Store.Sql.{ok, count_where, select_row, update_where}
use ovek.Store.Laws.{count-update, select_row-update, select_row-holds, changed_option}
use ovek.Store.Rows.{count-update_clears, count-delete}
use ovek.Store.Changes.{count-update_covers}
use ovek.Projects.{has_name, with_status, status_of, row_status, project_exists}
use ovek.Projects.Laws.{sync-Synced, sync_total}
use ovek.Worker.{with_current, with_deployment_status}
use ovek.Workflows.{clear_project_workflow_state}
use ovek.Cleanup.Listing.{is_succeeded_in, clear_project_runtime_state}

abbrev pub is_present : Option String → Bool
is_present none = false
is_present (some _) = true

abbrev pub has_current : String → ProjectRow → Bool
has_current project_name p = has_name project_name p && is_present p.current_deployment_id

abbrev pub is_up : ProjectStatus → Bool
is_up ProjectStatus.running = true
is_up ProjectStatus.stopped = true
is_up _ = false

-- The rows of a project that has been taken down, and what of the others has stayed.
pub record IsDown (project_name : String) (db db' : Db) : Type 0 where
  pub no_succeeded : count_where (is_succeeded_in project_name) db'.deployments ≡ 0
  pub no_current : count_where (has_current project_name) db'.projects ≡ 0
  pub not_up : count_where (λ p. has_name project_name p && is_up p.status) db'.projects ≡ 0
  pub one_project : count_where (has_name project_name) db'.projects ≡ 1
  pub same_jobs : db'.jobs ≡ db.jobs

pub record HasNoWorkflows (project_name : String) (db : Db) : Type 0 where
  pub no_workflows : count_where (λ row. row.project_name == project_name) db.workflows ≡ 0
  pub no_runs : count_where (λ row. row.project_name == project_name) db.workflow_runs ≡ 0
  pub no_tokens :
      count_where (λ row. row.project_name == project_name) db.workflow_trigger_tokens ≡ 0

pub clear-HasNoWorkflows :
    (n : String) (db : Db) → HasNoWorkflows n (clear_project_workflow_state n db)
unfolding clear_project_workflow_state
clear-HasNoWorkflows n db = record {
  no_workflows = count-delete _ db.workflows;
  no_runs = count-delete _ db.workflow_runs;
  no_tokens = count-delete _ db.workflow_trigger_tokens;
}

-- A clearing of the runtime leaves the tables of workflows as they were.
pub record KeepsWorkflows (db db' : Db) : Type 0 where
  pub same_workflows : db'.workflows ≡ db.workflows
  pub same_runs : db'.workflow_runs ≡ db.workflow_runs
  pub same_tokens : db'.workflow_trigger_tokens ≡ db.workflow_trigger_tokens

pub clear-KeepsWorkflows :
    (n : String) (db : Db) {db' : Db}
    → clear_project_runtime_state n db ≡ ok db'
    → KeepsWorkflows db db'
unfolding clear_project_runtime_state
clear-KeepsWorkflows n db {db'} h =
    rw (sync-Synced n _ h).result
      (record { same_workflows = refl; same_runs = refl; same_tokens = refl })

project_exists-one :
    (n : String) (db : Db) → project_exists n db ≡ true → count_where (has_name n) db.projects ≡ 1
unfolding project_exists
project_exists-one n db h = (nat_eq_iff _ 1).0 h

count-has_name :
    (n : String) (f : ProjectRow → ProjectRow) (xs : List ProjectRow)
    → ((p : ProjectRow) → (f p).name ≡ p.name)
    → count_where (has_name n) (update_where (has_name n) f xs) ≡ count_where (has_name n) xs
count-has_name n f xs kept = count-update (has_name n) (has_name n) f xs (λ p _ _. rw (kept p))

pub clear_total :
    (n : String) (db : Db)
    → project_exists n db ≡ true
    → (db' : Db) × (clear_project_runtime_state n db ≡ ok db')
unfolding clear_project_runtime_state
clear_total n db there =
    sync_total n _
      (count-has_name n (with_current none) db.projects (λ p. refl) ∙ project_exists-one n db there)

not_up_status :
    (n : ℕ) (s : ProjectStatus) (latest : Option JobStatus)
    → is_up (status_of n none s latest) ≡ false
unfolding status_of
not_up_status n s latest = ground arith

cleared_row :
    (n : String) (xs : List ProjectRow) {row : ProjectRow}
    → select_row (has_name n) (update_where (has_name n) (with_current none) xs) ≡ some row
    → row.current_deployment_id ≡ none
cleared_row n xs found =
    current_of_changed (select_row (has_name n) xs) (select_row-holds (has_name n) xs) (
      sym (select_row-update (has_name n) (has_name n) (with_current none) xs (λ p _. refl))
      ∙ found)
  where
    current_of_changed :
        (o : Option ProjectRow) {row : ProjectRow}
        → ((p : ProjectRow) → o ≡ some p → has_name n p ≡ true)
        → changed_option (has_name n) (with_current none) o ≡ some row
        → row.current_deployment_id ≡ none
    current_of_changed none holds e = cc
    current_of_changed (some p) holds e = sym (ap current (rw (holds p refl) at e))
      where
        current : Option ProjectRow → Option String
        current none = none
        current (some p) = p.current_deployment_id

not_up_row :
    (db : Db) (p : ProjectRow) → p.current_deployment_id ≡ none → is_up (row_status db p) ≡ false
unfolding row_status
not_up_row db p h = rw h (not_up_status _ p.status _)

module _ (n : String) (xs : List ProjectRow) (s : ProjectStatus) where
  abbrev cleared : List ProjectRow
  cleared =
      update_where (has_name n) (with_status s) (update_where (has_name n) (with_current none) xs)

  cleared-no_current : count_where (has_current n) cleared ≡ 0
  cleared-no_current =
      count-update (has_current n) (has_name n) (with_status s) _ (λ p _ _. refl)
      ∙ count-update_covers (has_current n) (has_name n) (with_current none) xs (λ p _. no_part _)
          (λ p e. rw e)
    where
      no_part : (b : Bool) → (b && false) ≡ false
      no_part b = ground arith

  cleared-not_up : is_up s ≡ false → count_where (λ p. has_name n p && is_up p.status) cleared ≡ 0
  cleared-not_up down =
      count-update_covers _ (has_name n) (with_status s) _ (λ p e. rw (e, down)) (λ p e. rw e)

  cleared-one :
      count_where (has_name n) cleared
      ≡ count_where (has_name n) (update_where (has_name n) (with_current none) xs)
  cleared-one = count-has_name n (with_status s) _ (λ p. refl)

superseded-none :
    (n : String) (xs : List DeploymentRow)
    → count_where
        (is_succeeded_in n)
        (update_where (is_succeeded_in n) (with_deployment_status DeploymentStatus.superseded) xs)
      ≡ 0
superseded-none n xs =
    count-update_clears (is_succeeded_in n) (with_deployment_status DeploymentStatus.superseded) xs
      (λ d. not_succeeded (d.project_name == n))
  where
    not_succeeded :
        (b : Bool)
        → (b && deployment_status_eq DeploymentStatus.superseded DeploymentStatus.succeeded) ≡ false
    not_succeeded b = unfold deployment_status_eq in ground arith

pub clear-IsDown :
    (n : String) (db : Db) {db' : Db} → clear_project_runtime_state n db ≡ ok db' → IsDown n db db'
unfolding clear_project_runtime_state
clear-IsDown n db {db'} h =
    let synced = sync-Synced n _ h in
    rw synced.result (record {
      no_succeeded = superseded-none n db.deployments;
      no_current = cleared-no_current n db.projects _;
      not_up =
          cleared-not_up n db.projects _
            (not_up_row _ synced.row (cleared_row n db.projects synced.found));
      one_project = cleared-one n db.projects _ ∙ synced.one;
      same_jobs = refl;
    })
