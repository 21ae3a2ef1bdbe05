-- ===== src/Lifecycle/Steps.antt =====
-- The transactions of cmd/brain/worker.go keep the tables well-formed.
use ovek.Common.{
  ◌≡◌, refl, sym, ap, ◌∙◌, String, true, some, List, arith, ◌==◌, eq_iff, eq_refl, Option-cases,
  inl, inr, Memᴰ, Bool-cases, trim_space,
}
use ovek.Store.{Db, JobRow, ProjectRow, JobStatus, job_status_eq}
use ovek.Store.Sql.{
  Result, ok, bind-ok, ok_inj, ◌>>=◌, select_row, count_where, update_where, update_row,
}
use ovek.Store.Laws.{
  changed, changed_option, update_row-ok, update_row_total, count_of_row, select_row-holds,
}
use ovek.Projects.{is_active, sync_project_status}
use ovek.Projects.Laws.{sync-Synced, sync_total}
use ovek.Projects.Frames.{sync-IsSynced, jobs-IsSyncedRow, active-IsSynced}
use ovek.Jobs.{has_id}
use ovek.Worker.{
  DeploymentResult, is_job_at, claimed, claim_queued_job, get_job_project_name,
  normalize_job_failure_message, job_failed, mark_job_failed, update_job_phase,
}
use ovek.Lifecycle.{IsKeyed, IsWellFormed}
use ovek.Lifecycle.Keys.{job_row_unique, job_row-update, jobs-IsKeyed, Synced-IsKeyed}

pub job_status-eq : (a b : JobStatus) → job_status_eq a b ≡ true → a ≡ b
unfolding job_status_eq
job_status-eq a b h = ground arith

-- A row that an update of cmd/brain/worker.go meets has the job's id and the status that it asks for.
pub is_job_at-holds :
    (id : String) (s : JobStatus) (j : JobRow)
    → is_job_at id s j ≡ true
    → (j.id ≡ id) × (j.status ≡ s)
is_job_at-holds id s j h = elim (Bool-cases (j.id == id)) [
  | inl e ↦ ((eq_iff j.id id).0 e, job_status-eq j.status s (rw e at h))
  | inr e ↦ cc (rw e at h)
]

-- A row of an id that an update meets belongs to the project of the row with that id.
pub of_project :
    (jobs : List JobRow) (projects : List ProjectRow)
    → IsKeyed jobs projects
    → (id : String) (s : JobStatus) (row j : JobRow) → select_row (has_id id) jobs ≡ some row
    → Memᴰ j jobs
    → is_job_at id s j ≡ true
    → j.project_name ≡ row.project_name
of_project jobs projects keyed id s row j found mem h =
    ap (λ (r : JobRow). r.project_name)
      (job_row_unique jobs projects keyed id row j found mem
        (ap (λ i. i == id) (is_job_at-holds id s j h).0 ∙ eq_refl id))

pub claim-db :
    (id at : String) (db : Db)
    → (claim_queued_job id at db).1
      ≡ record db { jobs = update_where (is_job_at id JobStatus.queued) (claimed at) db.jobs }
unfolding claim_queued_job
claim-db id at db = refl

pub phase-db :
    (id phase : String) (db : Db)
    → update_job_phase id phase db ≡ record db {
      jobs =
          update_where
            (is_job_at id JobStatus.running)
            (λ row. record row { phase = some (trim_space phase) })
            db.jobs;
    }
unfolding update_job_phase
phase-db id phase db = refl

pub claim-IsKeyed :
    (id at : String) (db : Db)
    → IsKeyed db.jobs db.projects
    → IsKeyed (claim_queued_job id at db).1.jobs (claim_queued_job id at db).1.projects
claim-IsKeyed id at db keyed = rw claim-db (
    jobs-IsKeyed (is_job_at id JobStatus.queued) (claimed at) db.jobs (λ j. refl) (λ j. refl)
      (λ j h k. ap is_active (is_job_at-holds id JobStatus.queued j h).1) keyed)

pub phase-IsKeyed :
    (id phase : String) (db : Db)
    → IsKeyed db.jobs db.projects
    → IsKeyed (update_job_phase id phase db).jobs (update_job_phase id phase db).projects
phase-IsKeyed id phase db keyed = rw phase-db (
    jobs-IsKeyed (is_job_at id JobStatus.running)
      (λ row. record row { phase = some (trim_space phase) }) db.jobs (λ j. refl) (λ j. refl)
      (λ j h k. k) keyed)

pub claim-IsWellFormed :
    (id at : String) (db : Db) → IsWellFormed db → IsWellFormed (claim_queued_job id at db).1
claim-IsWellFormed id at db well = rw claim-db (record {
  keyed = rw claim-db at (claim-IsKeyed id at db well.keyed);
  synced =
      active-IsSynced db (is_job_at id JobStatus.queued) (claimed at) (λ j. refl) active
        (λ j h. refl) well.synced;
})
  where
    active : (j : JobRow) → is_job_at id JobStatus.queued j ≡ true → is_active j.status ≡ true
    active j h = ap is_active (is_job_at-holds id JobStatus.queued j h).1

pub phase-IsWellFormed :
    (id phase : String) (db : Db) → IsWellFormed db → IsWellFormed (update_job_phase id phase db)
phase-IsWellFormed id phase db well = rw phase-db (record {
  keyed = rw phase-db at (phase-IsKeyed id phase db well.keyed);
  synced =
      active-IsSynced db (is_job_at id JobStatus.running)
        (λ row. record row { phase = some (trim_space phase) }) (λ j. refl) active active
        well.synced;
})
  where
    active : (j : JobRow) → is_job_at id JobStatus.running j ≡ true → is_active j.status ≡ true
    active j h = ap is_active (is_job_at-holds id JobStatus.running j h).1

pub project_name_of :
    (id n : String) (db : Db)
    → get_job_project_name id db ≡ ok n
    → (row : JobRow) × (select_row (has_id id) db.jobs ≡ some row) × (row.project_name ≡ n)
unfolding get_job_project_name
project_name_of id n db h = elim (Option-cases (select_row (has_id id) db.jobs)) [
  | inl e ↦ cc (rw (e, get_job_project_name) at h)
  | inr (row, e) ↦ (row, e, ok_inj _ _ (rw (e, get_job_project_name) at h))
]

pub project_name-found :
    (id : String) (db : Db) (row : JobRow)
    → select_row (has_id id) db.jobs ≡ some row
    → get_job_project_name id db ≡ ok row.project_name
unfolding get_job_project_name
project_name-found id db row e = rw (e, get_job_project_name)

-- The row that an id finds is the one row with that id and its status.
pub count-is_job_at :
    (jobs : List JobRow) (projects : List ProjectRow)
    → IsKeyed jobs projects
    → (id : String) (s : JobStatus) (row : JobRow) → select_row (has_id id) jobs ≡ some row
    → job_status_eq row.status s ≡ true
    → count_where (is_job_at id s) jobs ≡ 1
count-is_job_at jobs projects keyed id s row found at_s =
    count_of_row (has_id id) (is_job_at id s) jobs row (λ j h. ground (arith, h)) (keyed.job_ids id)
      found
    ∙ rw (select_row-holds (has_id id) jobs row found, at_s)

module _ (id finished_at message : String) (result : DeploymentResult) (db : Db) where
  abbrev pub fail_row : JobRow → JobRow
  fail_row = job_failed finished_at (normalize_job_failure_message message) result

  abbrev pub failed_db : Db
  failed_db = record db { jobs = update_where (is_job_at id JobStatus.running) fail_row db.jobs }

  -- Inversion of a failure that is recorded.
  pub failed-steps :
      {db' : Db}
      → mark_job_failed id finished_at message result db ≡ ok db'
      → (row : JobRow) × (select_row (has_id id) db.jobs ≡ some row)
        × (count_where (is_job_at id JobStatus.running) db.jobs ≡ 1)
        × (sync_project_status row.project_name failed_db ≡ ok db')
  unfolding mark_job_failed
  failed-steps {db'} h =
      let (n, named, h1) = bind-ok (get_job_project_name id db) _ h in
      let (jobs, updated, h2) =
        bind-ok (update_row (is_job_at id JobStatus.running) fail_row db.jobs) _ h1 in
      let (row, found, is_n) = project_name_of id n db named in
      let (one, same) = update_row-ok (is_job_at id JobStatus.running) fail_row db.jobs updated in
      (
        row,
        found,
        one,
        ap (λ k. sync_project_status k failed_db) is_n
            ∙ ap {B = Result Db}
                (λ (rows : List JobRow). sync_project_status n (record db { jobs = rows }))
                (sym same)
            ∙ h2,
      )

  -- A failure is recorded if the job is running.
  pub failed_total :
      (row : JobRow)
      → IsKeyed db.jobs db.projects
      → select_row (has_id id) db.jobs ≡ some row
      → row.status ≡ JobStatus.running
      → (db' : Db) × (mark_job_failed id finished_at message result db ≡ ok db')
  unfolding mark_job_failed job_status_eq
  failed_total row keyed found is_running =
      let one =
        count-is_job_at db.jobs db.projects keyed id JobStatus.running row found
          (running row.status is_running) in
      let (db', synced) = sync_total row.project_name failed_db (keyed.owned id row found) in
      (
        db',
        ap
              (λ r. r >>= λ n.
                update_row (is_job_at id JobStatus.running) fail_row db.jobs >>= λ rows.
                sync_project_status n (record db { jobs = rows }))
              (project_name-found id db row found)
            ∙ ap {B = Result Db}
                (λ (r : Result (List JobRow)).
                  r >>= λ rows. sync_project_status row.project_name (record db { jobs = rows }))
                (update_row_total (is_job_at id JobStatus.running) fail_row db.jobs one)
            ∙ synced,
      )
    where
      running : (s : JobStatus) → s ≡ JobStatus.running → job_status_eq s JobStatus.running ≡ true
      running s e = rw (e, job_status_eq)

  pub failed-IsKeyed :
      {db' : Db}
      → IsKeyed db.jobs db.projects
      → mark_job_failed id finished_at message result db ≡ ok db'
      → IsKeyed db'.jobs db'.projects
  failed-IsKeyed {db'} keyed h =
      let (row, found, one, synced) = failed-steps h in
      Synced-IsKeyed row.project_name failed_db db' (sync-Synced row.project_name failed_db synced)
        (jobs-IsKeyed (is_job_at id JobStatus.running) fail_row db.jobs (λ j. refl) (λ j. refl)
          (λ j h k. cc (k)) keyed)

  pub failed-IsWellFormed :
      {db' : Db}
      → IsWellFormed db
      → mark_job_failed id finished_at message result db ≡ ok db'
      → IsWellFormed db'
  failed-IsWellFormed {db'} well h =
      let (row, found, one, synced) = failed-steps h in
      let sync = sync-Synced row.project_name failed_db synced in
      record {
        keyed = failed-IsKeyed well.keyed h;
        synced = sync-IsSynced row.project_name failed_db db' sync (λ m other.
            jobs-IsSyncedRow db (is_job_at id JobStatus.running) fail_row (λ j. refl)
              row.project_name m
              (λ j mem h.
                of_project db.jobs db.projects well.keyed id JobStatus.running row j found mem h)
              other (well.synced m));
      }

  -- The row of the job after its failure is recorded.
  pub failed-row :
      {db' : Db}
      → mark_job_failed id finished_at message result db ≡ ok db'
      → (row : JobRow) × (select_row (has_id id) db.jobs ≡ some row)
        × (select_row (has_id id) db'.jobs
            ≡ some (changed (is_job_at id JobStatus.running) fail_row row))
  failed-row {db'} h =
      let (row, found, one, synced) = failed-steps h in
      let sync = sync-Synced row.project_name failed_db synced in
      (
        row,
        found,
        ap (λ (d : Db). select_row (has_id id) d.jobs) sync.result
            ∙ job_row-update (is_job_at id JobStatus.running) fail_row db.jobs (λ j. refl)
                (λ j. refl) id
            ∙ ap (changed_option (is_job_at id JobStatus.running) fail_row) found,
      )
