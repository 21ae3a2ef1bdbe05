-- ===== src/Projects.antt =====
-- The status of a project: cmd/brain/project_status.go, and the lookups of cmd/brain/cleanup.go and
-- cmd/brain/project_config.go that other parts share.
pub mod Laws
pub mod Frames
use ovek.Common.{
  ℕ, zero, suc, String, Bool, true, false, not, ◌&&◌, ◌||◌, Option, none, some, List, [], ◌∷◌, ◌++◌,
  ◌==◌, ltb, nat_eq, text_lt, if◌then◌else◌,
}
use ovek.Store.{
  Db, ProjectRow, JobRow, RevisionRow, ProjectStatus, JobStatus, job_status_eq, err_no_rows,
}
use ovek.Store.Sql.{
  Result, ok, err, ◌>>=◌, ◌>>◌, select, select_row, count_where, update_row, update_where, order_by,
  first_row,
}

-- status IN ('queued', 'running')
abbrev pub is_active : JobStatus → Bool
is_active JobStatus.queued = true
is_active JobStatus.running = true
is_active _ = false

abbrev pub is_active_of : String → JobRow → Bool
is_active_of project_name job = job.project_name == project_name && is_active job.status

-- ORDER BY created_at DESC, id DESC
abbrev pub later_job : JobRow → JobRow → Bool
later_job a b =
    text_lt b.created_at a.created_at || (a.created_at == b.created_at && text_lt b.id a.id)

unfoldable pub latest_job : String → Db → Option JobRow
latest_job project_name db =
    first_row (order_by later_job (select (λ j. j.project_name == project_name) db.jobs))

-- The switch of deriveProjectStatus.
unfoldable pub status_of : ℕ → Option String → ProjectStatus → Option JobStatus → ProjectStatus
status_of active_job_count current_deployment_id current_status latest_job_status =
    if ltb 0 active_job_count then ProjectStatus.deploying else elim current_deployment_id [
      | some _ ↦ (elim current_status [
        | ProjectStatus.stopped ↦ ProjectStatus.stopped
        | _ ↦ ProjectStatus.running
      ])
      | none ↦ (elim latest_job_status [
        | some status ↦
            if job_status_eq status JobStatus.failed
            then ProjectStatus.failed
            else ProjectStatus.idle
        | none ↦ ProjectStatus.idle
      ])
    ]

abbrev pub has_name : String → ProjectRow → Bool
has_name project_name p = p.name == project_name

-- What deriveProjectStatus computes for the project's row.
unfoldable pub row_status : Db → ProjectRow → ProjectStatus
row_status db p =
    status_of (count_where (is_active_of p.name) db.jobs) p.current_deployment_id p.status
      (elim (latest_job p.name db) [ none ↦ none | some j ↦ some j.status ])

unfoldable pub derive_project_status : String → Db → Result ProjectStatus
derive_project_status project_name db = elim (select_row (has_name project_name) db.projects) [
  | none ↦ err err_no_rows
  | some p ↦ ok (row_status db p)
]

abbrev pub with_status : ProjectStatus → ProjectRow → ProjectRow
with_status status p = record p { status = status }

unfoldable pub set_project_status : String → ProjectStatus → Db → Result Db
set_project_status project_name status db = do
  projects ← update_row (has_name project_name) (with_status status) db.projects
  ok (record db { projects = projects })

unfoldable pub sync_project_status : String → Db → Result Db
sync_project_status project_name db = do
  status ← derive_project_status project_name db
  set_project_status project_name status db

-- reconcileAllProjectStatuses, over the names that listProjectNames returned.
unfoldable pub sync_all : List String → Db → Result Db
sync_all [] db = ok db
sync_all (project_name ∷ names) db = do
  db' ← sync_project_status project_name db
  sync_all names db'

unfoldable pub project_exists : String → Db → Bool
project_exists project_name db = nat_eq (count_where (has_name project_name) db.projects) 1

-- latestProjectConfigRevisionID, with the text order of `created_at DESC`
unfoldable pub latest_project_config_revision_id : String → Db → Option String
latest_project_config_revision_id project_name db =
    elim (first_row (
      order_by (λ a b. text_lt b.created_at a.created_at)
        (select (λ r. r.project_name == project_name) db.project_config_revisions))) [
          | none ↦ none
          | some r ↦ some r.id
        ]

-- INSERT OR IGNORE INTO projects (ensureProjectTx)
unfoldable pub ensure_project : String → String → Db → Db
ensure_project project_name created_at db = elim (select_row (has_name project_name) db.projects) [
  | none ↦ record db {
    projects =
        db.projects
        ++ record {
          name = project_name;
          status = ProjectStatus.idle;
          current_deployment_id = none;
          created_at = created_at;
        }
          ∷ [];
  }
  | some _ ↦ db
]
