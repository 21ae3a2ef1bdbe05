-- ===== src/Lifecycle/Statuses.antt =====
-- A status that a stop or a start of cmd/brain/project_runtime.go stores.
use ovek.Common.{
  ◌≡◌, refl, sym, ap, ◌∙◌, String, Bool, true, Option, some, arith, inl, inr, subst, if◌then◌else◌,
  ◌==◌, eq_iff, eq_refl, Bool-cases,
}
use mathlib.Core.Option.{some-injective}
use ovek.Store.{Db, ProjectRow, ProjectStatus, JobStatus}
use ovek.Store.Sql.{ok, select_row, count_where, update_where}
use ovek.Store.Laws.{changed_option, select_row-update, select_row-holds}
use ovek.Projects.{is_active_of, has_name, row_status, status_of, with_status, set_project_status}
use ovek.Projects.Laws.{set_project_status-ok, IsSyncedRow}
use ovek.Projects.Frames.{has_name-eq, row_status-same_jobs}
use ovek.Cleanup.Clearing.{is_up}
use ovek.Lifecycle.{IsKeyed, IsWellFormed}
use ovek.Lifecycle.Keys.{projects-IsKeyed}
use ovek.Lifecycle.Relinked.{relinked-IsSyncedRow}

-- The project has a current deployment and no active job.
pub record IsCalm (n : String) (db : Db) : Type 0 where
  pub row : ProjectRow
  pub found : select_row (has_name n) db.projects ≡ some row
  pub deployment_id : String
  pub current : row.current_deployment_id ≡ some deployment_id
  pub idle : count_where (is_active_of n) db.jobs ≡ 0

up_status :
    (d : String) (s : ProjectStatus) (latest : Option JobStatus)
    → is_up s ≡ true
    → status_of 0 (some d) s latest ≡ s
unfolding status_of
up_status d s latest up = ground (arith, up)

up-row :
    (db : Db) (p : ProjectRow) (s : ProjectStatus) (d : String)
    → is_up s ≡ true
    → p.current_deployment_id ≡ some d
    → count_where (is_active_of p.name) db.jobs ≡ 0
    → row_status db (with_status s p) ≡ s
unfolding row_status
up-row db p s d up current idle = rw (current, idle) (up_status d s _ up)

module _ (n : String) (s : ProjectStatus) (db : Db) {db' : Db}
    (stored : set_project_status n s db ≡ ok db') where
  status_db : db' ≡ record db { projects = update_where (has_name n) (with_status s) db.projects }
  status_db = (set_project_status-ok n s db stored).1

  pub set_status-jobs : db'.jobs ≡ db.jobs
  set_status-jobs = ap (λ (d : Db). d.jobs) status_db

  pub set_status-IsKeyed : IsKeyed db.jobs db.projects → IsKeyed db'.jobs db'.projects
  set_status-IsKeyed keyed =
      rw status_db
        (projects-IsKeyed db.jobs db.projects (has_name n) (with_status s) (λ p. refl) keyed)

  own_row : IsCalm n db → is_up s ≡ true → IsSyncedRow db' n
  own_row calm up p found =
      let p_is : p ≡ with_status s calm.row = some-injective _ _ (
        sym found
        ∙ ap (λ (d : Db). select_row (has_name n) d.projects) status_db
        ∙ select_row-update (has_name n) (has_name n) (with_status s) db.projects (λ x h. refl)
        ∙ ap (changed_option (has_name n) (with_status s)) calm.found
        ∙ ap (λ (b : Bool). some (if b then with_status s calm.row else calm.row))
            (select_row-holds (has_name n) db.projects calm.row calm.found)) in
      let named =
        has_name-eq n calm.row (select_row-holds (has_name n) db.projects calm.row calm.found) in
      rw p_is (
        sym (
          row_status-same_jobs db db' (with_status s calm.row) set_status-jobs
          ∙ up-row db calm.row s calm.deployment_id up calm.current
              (ap (λ k. count_where (is_active_of k) db.jobs) named ∙ calm.idle)))

  -- Without an active job the status that is stored is in step.
  pub set_status-IsWellFormed : IsCalm n db → is_up s ≡ true → IsWellFormed db → IsWellFormed db'
  set_status-IsWellFormed calm up well = record {
    keyed = set_status-IsKeyed well.keyed;
    synced = λ m. elim (Bool-cases (m == n)) [
      | inl e ↦ subst (IsSyncedRow db') (sym ((eq_iff m n).0 e)) (own_row calm up)
      | inr e ↦
          relinked-IsSyncedRow n (with_status s) (λ p. refl) db db' set_status-jobs
            (ap (λ (d : Db). d.projects) status_db) m (λ same. cc (e, same, eq_refl n))
            (well.synced m)
    ];
  }
