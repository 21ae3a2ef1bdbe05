-- ===== src/Lifecycle.antt =====
-- The life of deployment jobs across cmd/brain/jobs.go, cmd/brain/worker.go and
-- cmd/brain/project_status.go: what holds of the tables between two transactions.
pub mod Keys
pub mod Create
pub mod Created
pub mod Creation
pub mod Steps
pub mod Relinked
pub mod Promotion
pub mod Promoted
pub mod Process
pub mod Recovery
pub mod Services
pub mod Statuses
pub mod Ensured
pub mod Interrupted
pub mod Transactions
pub mod FinishedJobs
pub mod Reach
pub mod FailedStatus
use ovek.Common.{ℕ, ◌≤◌, ◌≡◌, String, some, List}
use ovek.Store.{Db, JobRow, ProjectRow}
use ovek.Store.Sql.{select_row, count_where}
use ovek.Projects.{is_active_of, has_name}
use ovek.Projects.Laws.{IsSynced}
use ovek.Jobs.{has_id}

-- The primary keys, the foreign key of jobs, and one active job for each project at most.
pub record IsKeyed (jobs : List JobRow) (projects : List ProjectRow) : Type 0 where
  pub job_ids : (id : String) → count_where (has_id id) jobs ≤ 1
  pub names : (n : String) → count_where (has_name n) projects ≤ 1
  pub owned :
      (id : String) (row : JobRow)
      → select_row (has_id id) jobs ≡ some row
      → count_where (has_name row.project_name) projects ≡ 1
  pub single : (n : String) → count_where (is_active_of n) jobs ≤ 1

-- The tables are keyed, and the stored status of every project is in step with them.
pub record IsWellFormed (db : Db) : Type 0 where
  pub keyed : IsKeyed db.jobs db.projects
  pub synced : IsSynced db
