-- ===== src/Projects/Laws.antt =====
-- The stored status of every project is the one that its jobs and deployment determine.
use ovek.Common.{ℕ, ◌<◌, ◌≡◌, sym, ap, ◌∙◌, String, Option, none, some, arith}
use ovek.Store.{Db, ProjectRow, ProjectStatus, JobStatus, job_status_eq, err_no_rows}
use ovek.Store.Sql.{
  Result, ok, err, bind-ok, ok_inj, ◌>>=◌, select_row, count_where, update_where, update_row,
}
use ovek.Store.Laws.{update_row-ok, update_row_total, row_of_count_pos}
use ovek.Projects.{
  status_of, has_name, row_status, derive_project_status, with_status, set_project_status,
  sync_project_status,
}

-- Deriving a status again from the derived one changes nothing.
pub status_of_idem :
    (n : ℕ) (current : Option String) (s : ProjectStatus) (latest : Option JobStatus)
    → status_of n current (status_of n current s latest) latest ≡ status_of n current s latest
unfolding status_of job_status_eq
status_of_idem n current s latest = ground arith

-- An active job makes the project deploying.
pub status_of_pos :
    (n : ℕ) (current : Option String) (s : ProjectStatus) (latest : Option JobStatus)
    → 0 < n
    → status_of n current s latest ≡ ProjectStatus.deploying
unfolding status_of
status_of_pos n current s latest h = ground arith

abbrev pub IsSyncedRow : Db → String → Type 0
IsSyncedRow db n =
    (p : ProjectRow) → select_row (has_name n) db.projects ≡ some p → p.status ≡ row_status db p

abbrev pub IsSynced : Db → Type 0
IsSynced db = (n : String) → IsSyncedRow db n

-- What a sync that succeeds has done.
pub record Synced (project_name : String) (db db' : Db) : Type 0 where
  pub row : ProjectRow
  pub found : select_row (has_name project_name) db.projects ≡ some row
  pub one : count_where (has_name project_name) db.projects ≡ 1
  pub result : db' ≡ record db {
    projects = update_where (has_name project_name) (with_status (row_status db row)) db.projects;
  }

derive_of_row :
    (n : String) (db : Db) (p : ProjectRow)
    → select_row (has_name n) db.projects ≡ some p
    → derive_project_status n db ≡ ok (row_status db p)
unfolding derive_project_status
derive_of_row n db p e = rw (e, derive_project_status)

derive_of_none :
    (n : String) (db : Db)
    → select_row (has_name n) db.projects ≡ none
    → derive_project_status n db ≡ err err_no_rows
unfolding derive_project_status
derive_of_none n db e = rw (e, derive_project_status)

pub set_project_status-ok :
    (n : String) (s : ProjectStatus) (db : Db) {db' : Db}
    → set_project_status n s db ≡ ok db'
    → (count_where (has_name n) db.projects ≡ 1)
      × (db' ≡ record db { projects = update_where (has_name n) (with_status s) db.projects })
unfolding set_project_status
set_project_status-ok n s db h =
    let (rows, updated, done) = bind-ok (update_row (has_name n) (with_status s) db.projects) _ h in
    let (one, same) = update_row-ok (has_name n) (with_status s) db.projects updated in
    (one, sym (ok_inj _ _ done) ∙ ap {B = Db} (λ rows. record db { projects = rows }) same)

-- Inversion: a sync that succeeds found one row, and changed its status alone.
pub sync-Synced :
    (n : String) (db : Db) {db' : Db} → sync_project_status n db ≡ ok db' → Synced n db db'
unfolding sync_project_status
sync-Synced n db {db'} h =
    let (s, derived, set_ok) =
      bind-ok (derive_project_status n db) (λ s. set_project_status n s db) h in
    let (one, result) = set_project_status-ok n s db set_ok in
    let (p, found) = row_of_count_pos (has_name n) db.projects (omega arith) in
    let same : row_status db p ≡ s = ok_inj _ _ (sym (derive_of_row n db p found) ∙ derived) in
    record { row = p; found = found; one = one; result = rw same result }

-- A sync of a project that the table lists once succeeds.
pub sync_total :
    (n : String) (db : Db)
    → count_where (has_name n) db.projects ≡ 1
    → (db' : Db) × (sync_project_status n db ≡ ok db')
unfolding sync_project_status set_project_status
sync_total n db one =
    let (p, found) = row_of_count_pos (has_name n) db.projects (omega arith) in
    (
      record db {
        projects = update_where (has_name n) (with_status (row_status db p)) db.projects;
      },
      ap (λ r. r >>= λ s. set_project_status n s db) (derive_of_row n db p found)
          ∙ ap {B = Result Db} (λ r. r >>= λ rows. ok (record db { projects = rows }))
              (update_row_total (has_name n) (with_status (row_status db p)) db.projects one),
    )
