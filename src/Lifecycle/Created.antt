-- ===== src/Lifecycle/Created.antt =====
-- createQueuedJobWithSource (cmd/brain/jobs.go): its INSERT, its sync and what it returns.
use ovek.Common.{
  ◌≡◌, refl, sym, ap, ◌∙◌, String, true, Option, none, some, [], ◌∷◌, ◌++◌, arith, ◌==◌, eq_iff,
  Option-cases, inl, inr, if◌then◌else◌, Bool-cases, subst, trim_space, text_lt,
}
use ovek.Store.{Db, JobRow, Job}
use ovek.Store.Sql.{
  nullable_string, Result, ok, bind-ok, ok_inj, select_row, count_where, exists_where,
}
use ovek.Store.Rows.{
  select_row-snoc_found, exists_where-false, exists_where_of_count, exists_where_of_zero,
}
use ovek.Store.Order.{count_of_no_first, first_of_count_zero}
use ovek.Projects.{
  is_active_of, has_name, ensure_project, latest_project_config_revision_id, sync_project_status,
}
use ovek.Projects.Laws.{IsSyncedRow, sync-Synced}
use ovek.Projects.Frames.{sync-IsSynced, insert-IsSyncedRow}
use ovek.Jobs.{
  scan_job, get_job, or_blank, has_id, find_active_deployment_job, insert_job, queued_row,
  stored_revision, new_job, decorate_job, reject_active_job, create_queued_job_with_source,
  job_source_type_repo,
}
use ovek.Lifecycle.{IsKeyed, IsWellFormed}
use ovek.Lifecycle.Create.{ensure_project-Ensured, ensure_project-keys}
use ovek.Lifecycle.Keys.{insert-IsKeyed, Synced-IsKeyed}

-- The row that the INSERT writes, and the job that is returned.
abbrev pub repo_url_of : String → String → String
repo_url_of source_type source_ref =
    if trim_space source_type == job_source_type_repo then trim_space source_ref else ""

abbrev pub created_row : String → String → String → String → String → Db → JobRow
created_row id at n source_type source_ref db1 =
    queued_row id n (repo_url_of source_type source_ref) (trim_space source_type)
      (trim_space source_ref) at (stored_revision (latest_project_config_revision_id n db1))

abbrev pub created_job : String → String → String → String → String → Db → Job
created_job id at n source_type source_ref db1 = decorate_job (
    new_job id n (repo_url_of source_type source_ref) (trim_space source_type)
      (trim_space source_ref) at (latest_project_config_revision_id n db1))

pub insert_job-ok :
    (row : JobRow) (db : Db) {db' : Db}
    → insert_job row db ≡ ok db'
    → (count_where (has_id row.id) db.jobs ≡ 0) × (db' ≡ record db { jobs = db.jobs ++ row ∷ [] })
unfolding insert_job
insert_job-ok row db {db'} h = elim (Bool-cases (exists_where (has_id row.id) db.jobs)) [
  | inl e ↦ cc (rw e at h)
  | inr e ↦ (
    exists_where-false (has_id row.id) db.jobs e,
    (elim (Bool-cases (exists_where (has_name row.project_name) db.projects)) [
      | inl k ↦ sym (ok_inj _ _ (rw (e, k) at h))
      | inr k ↦ cc (rw (e, k) at h)
    ]),
  )
]

pub insert_job_total :
    (row : JobRow) (db : Db)
    → count_where (has_id row.id) db.jobs ≡ 0
    → count_where (has_name row.project_name) db.projects ≡ 1
    → insert_job row db ≡ ok (record db { jobs = db.jobs ++ row ∷ [] })
unfolding insert_job
insert_job_total row db new there = rw (
  exists_where_of_zero (has_id row.id) db.jobs new,
  exists_where_of_count (has_name row.project_name) db.projects (omega arith),
)

pub find-none :
    (n : String) (db : Db)
    → find_active_deployment_job n db ≡ none
    → count_where (is_active_of n) db.jobs ≡ 0
unfolding find_active_deployment_job
find-none n db h = count_of_no_first (is_active_of n) _ db.jobs (missing _ h)
  where
    missing :
        (o : Option JobRow)
        → ◌≡◌ {A = Option Job}
            (elim o [ none ↦ none | some row ↦ some (decorate_job (scan_job row)) ])
            none
        → o ≡ none
    missing none e = refl
    missing (some row) e = cc

pub find-idle :
    (n : String) (db : Db)
    → count_where (is_active_of n) db.jobs ≡ 0
    → find_active_deployment_job n db ≡ none
unfolding find_active_deployment_job
find-idle n db h =
    ap {B = Option Job}
      (λ (o : Option JobRow). elim o [
        | none ↦ none
        | some row ↦ some (decorate_job (scan_job row))
      ])
      (first_of_count_zero (is_active_of n)
        (λ (a : JobRow) (b : JobRow). text_lt a.created_at b.created_at) db.jobs h)

reject-ok :
    (n : String) (db : Db) {u : Unit {0}}
    → reject_active_job true n db ≡ ok u
    → find_active_deployment_job n db ≡ none
unfolding reject_active_job
reject-ok n db h = elim (Option-cases (find_active_deployment_job n db)) [
  | inl e ↦ e
  | inr (j, e) ↦ cc (rw e at h)
]

pub or_blank-nullable_string : (s : String) → or_blank (nullable_string s) ≡ s
unfolding nullable_string
or_blank-nullable_string s = elim (Bool-cases (s == "")) [
  | inl e ↦ rw e (sym ((eq_iff s "").0 e))
  | inr e ↦ rw e
]

pub get_job-found :
    (id : String) (row : JobRow) (db : Db)
    → select_row (has_id id) db.jobs ≡ some row
    → get_job id db ≡ ok (decorate_job (scan_job row))
unfolding get_job
get_job-found id row db e = rw (e, get_job)

module _ (id at n source_type source_ref : String) (db : Db) where
  abbrev db1 : Db
  db1 = ensure_project n at db

  -- Inversion of a creation that succeeds.
  pub create-steps :
      {job : Job} {db' : Db}
      → create_queued_job_with_source id at n source_type source_ref true db ≡ ok (job, db')
      → (db2 : Db) × (find_active_deployment_job n db1 ≡ none)
        × (insert_job (created_row id at n source_type source_ref db1) db1 ≡ ok db2)
        × (sync_project_status n db2 ≡ ok db')
        × (job ≡ created_job id at n source_type source_ref db1)
  unfolding create_queued_job_with_source
  create-steps h =
      let (u, rejected, h1) = bind-ok (reject_active_job true n db1) _ h in
      let (db2, inserted, h2) =
        bind-ok (insert_job (created_row id at n source_type source_ref db1) db1) _ h1 in
      let (db3, synced, h3) = bind-ok (sync_project_status n db2) _ h2 in
      let same = ok_inj _ _ h3 in
      (
        db2,
        reject-ok n db1 rejected,
        inserted,
        synced ∙ ap {B = Result Db} (λ r. ok r.1) same,
        sym (ap (λ (r : Job × Db). r.0) same),
      )

  pub create-IsKeyed :
      {job : Job} {db' : Db}
      → IsKeyed db.jobs db.projects
      → create_queued_job_with_source id at n source_type source_ref true db ≡ ok (job, db')
      → IsKeyed db'.jobs db'.projects
  create-IsKeyed {job} {db'} keyed h =
      let (db2, idle, inserted, synced, _) = create-steps h in
      let (new, is_db2) =
        insert_job-ok (created_row id at n source_type source_ref db1) db1 inserted in
      let (jobs, one, keyed1) = ensure_project-keys n at db keyed in
      Synced-IsKeyed n db2 db' (sync-Synced n db2 synced) (
        subst (λ (d : Db). IsKeyed d.jobs d.projects) (sym is_db2)
          (insert-IsKeyed db1.jobs db1.projects (created_row id at n source_type source_ref db1) new
            one (find-none n db1 idle) keyed1))

  -- A job that is created for a project leaves the tables well-formed.
  pub create-IsWellFormed :
      {job : Job} {db' : Db}
      → IsWellFormed db
      → create_queued_job_with_source id at n source_type source_ref true db ≡ ok (job, db')
      → IsWellFormed db'
  create-IsWellFormed {job} {db'} well h =
      let (db2, idle, inserted, synced, _) = create-steps h in
      let (new, is_db2) =
        insert_job-ok (created_row id at n source_type source_ref db1) db1 inserted in
      let ensured = ensure_project-Ensured n at db well in
      let sync = sync-Synced n db2 synced in
      record {
        keyed = create-IsKeyed well.keyed h;
        synced = sync-IsSynced n db2 db' sync (λ m other.
            subst (λ d. IsSyncedRow d m) (sym is_db2)
              (insert-IsSyncedRow db1 (created_row id at n source_type source_ref db1) m other
                (ensured.others m other)));
      }

  -- Jobs that were there are kept as they were.
  pub create-keeps :
      {job : Job} {db' : Db} (k : String) (j : JobRow)
      → IsKeyed db.jobs db.projects
      → create_queued_job_with_source id at n source_type source_ref true db ≡ ok (job, db')
      → select_row (has_id k) db.jobs ≡ some j
      → select_row (has_id k) db'.jobs ≡ some j
  create-keeps {job} {db'} k j keyed h found =
      let (db2, idle, inserted, synced, is_job) = create-steps h in
      let (new, is_db2) =
        insert_job-ok (created_row id at n source_type source_ref db1) db1 inserted in
      let sync = sync-Synced n db2 synced in
      ap (λ (d : Db). select_row (has_id k) d.jobs) sync.result
      ∙ ap (λ (d : Db). select_row (has_id k) d.jobs) is_db2
      ∙ select_row-snoc_found (has_id k) db1.jobs (created_row id at n source_type source_ref db1) j
          (ap (select_row (has_id k)) (ensure_project-keys n at db keyed).0 ∙ found)
