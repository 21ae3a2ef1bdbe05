-- ===== src/Lifecycle/Recovery.antt =====
-- recoverInterruptedJobs (cmd/brain/worker.go) at the start of the program.
use ovek.Common.{
  ℕ, suc, ◌≤◌, ◌<◌, ◌≡◌, refl, sym, ap, ◌∙◌, String, true, false, ◌&&◌, some, List, [], ◌∷◌, arith,
  ◌==◌, eq_iff, eq_refl, inl, inr, Bool-cases, subst, Memᴰ,
}
use ovek.Store.{Db, JobRow, JobStatus, job_status_eq}
use ovek.Store.Sql.{ok, select, select_row, count_where, update_where, order_by}
use ovek.Store.Laws.{count-update, count_mono, row_of_count_pos, select_row-holds, no_row_of_count}
use ovek.Store.Rows.{
  count-ext, count-map, count-update_clears, update-update, update_none, update_ext,
}
use ovek.Store.Order.{mem_of_select_row, count-order_by, count-select}
use ovek.Projects.Laws.{sync-Synced}
use ovek.Jobs.{has_id}
use ovek.Worker.{
  interrupted_job_error_message, is_job_at, has_job_status, list_job_ids_by_status, job_failed,
  mark_job_failed, no_result, normalize_job_failure_message, fail_interrupted,
  recover_interrupted_jobs,
}
use ovek.Lifecycle.{IsWellFormed}
use ovek.Lifecycle.Keys.{job_row_unique}
use ovek.Lifecycle.Steps.{
  failed-IsWellFormed, failed_total, failed-steps, failed_db, fail_row, is_job_at-holds,
}

-- The row that an interrupted job is left with, from the clock's reading at each job.
abbrev pub interrupted : (String → String) → JobRow → JobRow
interrupted finished_at job =
    job_failed (finished_at job.id) (normalize_job_failure_message interrupted_job_error_message)
      no_result job

-- Each id stands in the list as often as a running job has it.
abbrev pub ListsRunning : List String → List JobRow → Type 0
ListsRunning ids jobs =
    (id : String)
    → count_where (λ i. i == id) ids ≡ count_where (is_job_at id JobStatus.running) jobs

list_job_ids-ListsRunning :
    (db : Db) → ListsRunning (list_job_ids_by_status JobStatus.running db) db.jobs
unfolding list_job_ids_by_status
list_job_ids-ListsRunning db id =
    count-map (λ i. i == id) (λ (r : JobRow). r.id)
      (order_by _ (select (has_job_status JobStatus.running) db.jobs))
    ∙ count-order_by (λ (r : JobRow). r.id == id) _
        (select (has_job_status JobStatus.running) db.jobs)
    ∙ count-select (λ (r : JobRow). r.id == id) (has_job_status JobStatus.running) db.jobs
    ∙ count-ext (λ (r : JobRow). has_job_status JobStatus.running r && (r.id == id))
        (is_job_at id JobStatus.running) db.jobs (λ r. ground arith)

-- The job that a running id names.
running-row :
    (id : String) (db : Db)
    → IsWellFormed db
    → 0 < count_where (is_job_at id JobStatus.running) db.jobs
    → (row : JobRow) × (select_row (has_id id) db.jobs ≡ some row)
      × (row.status ≡ JobStatus.running)
running-row id db well some_row =
    let (j, met) = row_of_count_pos (is_job_at id JobStatus.running) db.jobs some_row in
    let (is_id, is_running) =
      is_job_at-holds id JobStatus.running j
        (select_row-holds (is_job_at id JobStatus.running) db.jobs j met) in
    let (row, found) = row_of_count_pos (has_id id) db.jobs (
      more (
        count_mono (has_id id) (is_job_at id JobStatus.running) db.jobs
          (λ y h. ground (arith, h)))) in
    let same : j ≡ row =
      job_row_unique db.jobs db.projects well.keyed id row j found
        (mem_of_select_row (is_job_at id JobStatus.running) db.jobs j met)
        (ap (λ i. i == id) is_id ∙ eq_refl id) in
    (row, found, sym (ap (λ (r : JobRow). r.status) same) ∙ is_running)
  where
    more :
        count_where (is_job_at id JobStatus.running) db.jobs ≤ count_where (has_id id) db.jobs
        → 0 < count_where (has_id id) db.jobs
    more l = omega arith

interrupted-not_running :
    (finished_at : String → String) (j : JobRow)
    → has_job_status JobStatus.running (interrupted finished_at j) ≡ false
unfolding job_status_eq
interrupted-not_running finished_at j = refl

pub count-cons_true :
    (k id : String) (ids : List String)
    → (id == k) ≡ true
    → count_where (λ i. i == k) (id ∷ ids) ≡ suc (count_where (λ i. i == k) ids)
unfolding count_where
count-cons_true k id ids e = rw e

pub count-cons_false :
    (k id : String) (ids : List String)
    → (id == k) ≡ false
    → count_where (λ i. i == k) (id ∷ ids) ≡ count_where (λ i. i == k) ids
unfolding count_where
count-cons_false k id ids e = rw e

-- One round of the loop leaves the rest of the list in step.
rest-ListsRunning :
    (finished_at : String → String) (id : String) (ids : List String) (db : Db)
    → IsWellFormed db
    → ListsRunning (id ∷ ids) db.jobs
    → ListsRunning ids
        (update_where (is_job_at id JobStatus.running) (interrupted finished_at) db.jobs)
unfolding job_status_eq
rest-ListsRunning finished_at id ids db well lists k = elim (Bool-cases (id == k)) [
  | inl e ↦
      none_left (sym (count-cons_true k id ids e) ∙ lists k)
        (count_mono (has_id k) (is_job_at k JobStatus.running) db.jobs (λ y h. ground (arith, h)))
        (well.keyed.job_ids k)
      ∙ sym (
          ap
            (λ i.
              count_where (is_job_at i JobStatus.running)
                (update_where (is_job_at id JobStatus.running) (interrupted finished_at) db.jobs))
            (sym ((eq_iff id k).0 e))
          ∙ count-update_clears (is_job_at id JobStatus.running) (interrupted finished_at) db.jobs
              (λ x. ground arith))
  | inr e ↦
      sym (count-cons_false k id ids e)
      ∙ lists k
      ∙ sym (
          count-update (is_job_at k JobStatus.running) (is_job_at id JobStatus.running)
            (interrupted finished_at) db.jobs
            (λ x mem h. elsewhere x e (is_job_at-holds id JobStatus.running x h).0))
]
  where
    none_left : {c m n : ℕ} → suc c ≡ m → m ≤ n → n ≤ 1 → c ≡ 0
    none_left e l l' = omega arith

    elsewhere :
        (x : JobRow)
        → (id == k) ≡ false
        → x.id ≡ id
        → is_job_at k JobStatus.running (interrupted finished_at x)
          ≡ is_job_at k JobStatus.running x
    elsewhere x e same = rw (same, e)

interrupt-jobs :
    (finished_at : String → String) (id : String) (db db1 : Db)
    → mark_job_failed id (finished_at id) interrupted_job_error_message no_result db ≡ ok db1
    → db1.jobs ≡ update_where (is_job_at id JobStatus.running) (interrupted finished_at) db.jobs
interrupt-jobs finished_at id db db1 h =
    let (row, found, one, synced) =
      failed-steps id (finished_at id) interrupted_job_error_message no_result db h in
    let sync =
      sync-Synced row.project_name
        (failed_db id (finished_at id) interrupted_job_error_message no_result db) synced in
    ap (λ (d : Db). d.jobs) sync.result
    ∙ update_ext (is_job_at id JobStatus.running)
        (fail_row id (finished_at id) interrupted_job_error_message no_result db)
        (interrupted finished_at) db.jobs
        (λ x h. own_reading x (is_job_at-holds id JobStatus.running x h).0)
  where
    own_reading :
        (x : JobRow)
        → x.id ≡ id
        → fail_row id (finished_at id) interrupted_job_error_message no_result db x
          ≡ interrupted finished_at x
    own_reading x e = rw e refl

fail_interrupted-cons :
    (finished_at : String → String) (id : String) (ids : List String) (db db1 : Db)
    → mark_job_failed id (finished_at id) interrupted_job_error_message no_result db ≡ ok db1
    → fail_interrupted finished_at (id ∷ ids) db ≡ fail_interrupted finished_at ids db1
unfolding fail_interrupted
fail_interrupted-cons finished_at id ids db db1 h = rw h

fail_interrupted-nil :
    (finished_at : String → String) (db : Db) → fail_interrupted finished_at [] db ≡ ok db
unfolding fail_interrupted
fail_interrupted-nil finished_at db = refl

no_running :
    (jobs : List JobRow)
    → ListsRunning [] jobs
    → (j : JobRow) → Memᴰ j jobs
    → has_job_status JobStatus.running j ≡ false
unfolding count_where
no_running jobs lists j mem =
    dead (no_row_of_count (is_job_at j.id JobStatus.running) jobs j (sym (lists j.id)) mem)
      (eq_refl j.id)
  where
    dead :
        is_job_at j.id JobStatus.running j ≡ false
        → (j.id == j.id) ≡ true
        → has_job_status JobStatus.running j ≡ false
    dead h e = rw e at h

fail_interrupted_total :
    (finished_at : String → String) (ids : List String) (db : Db)
    → IsWellFormed db
    → ListsRunning ids db.jobs
    → (db' : Db) × (fail_interrupted finished_at ids db ≡ ok db')
      × IsWellFormed db'
      × (db'.jobs
          ≡ update_where (has_job_status JobStatus.running) (interrupted finished_at) db.jobs)
fail_interrupted_total finished_at [] db well lists = (
  db,
  fail_interrupted-nil finished_at db,
  well,
  sym (
      update_none (has_job_status JobStatus.running) (interrupted finished_at) db.jobs
        (no_running db.jobs lists)),
)
fail_interrupted_total finished_at (id ∷ ids) db well lists =
    let (row, found, is_running) =
      running-row id db well (positive (sym (count-cons_true id id ids (eq_refl id)) ∙ lists id)) in
    let (db1, marked) =
      failed_total id (finished_at id) interrupted_job_error_message no_result db row well.keyed
        found is_running in
    let jobs1 = interrupt-jobs finished_at id db db1 marked in
    let well1 =
      failed-IsWellFormed id (finished_at id) interrupted_job_error_message no_result db well
        marked in
    let (db', done, well', jobs') =
      fail_interrupted_total finished_at ids db1 well1 (
        subst (ListsRunning ids) (sym jobs1)
          (rest-ListsRunning finished_at id ids db well lists)) in
    (
      db',
      fail_interrupted-cons finished_at id ids db db1 marked ∙ done,
      well',
      jobs'
          ∙ ap (update_where (has_job_status JobStatus.running) (interrupted finished_at)) jobs1
          ∙ update-update (has_job_status JobStatus.running) (is_job_at id JobStatus.running)
              (interrupted finished_at) db.jobs (λ x h. weaker x h)
              (interrupted-not_running finished_at),
    )
  where
    positive : {c m : ℕ} → suc c ≡ m → 0 < m
    positive e = omega arith

    weaker :
        (x : JobRow)
        → is_job_at id JobStatus.running x ≡ true
        → has_job_status JobStatus.running x ≡ true
    weaker x h = ground (arith, h)

-- From well-formed tables the recovery succeeds: job by job it does what a single update of every
-- running job to a failed one does, each with the clock's reading at that job; no job is running
-- afterwards, and the tables stay well-formed.
pub recover_total :
    (finished_at : String → String) (db : Db)
    → IsWellFormed db
    → (db' : Db) × (recover_interrupted_jobs finished_at db ≡ ok db')
      × IsWellFormed db'
      × (db'.jobs
          ≡ update_where (has_job_status JobStatus.running) (interrupted finished_at) db.jobs)
      × (count_where (has_job_status JobStatus.running) db'.jobs ≡ 0)
unfolding recover_interrupted_jobs
recover_total finished_at db well =
    let (db', done, well', jobs') =
      fail_interrupted_total finished_at (list_job_ids_by_status JobStatus.running db) db well
        (list_job_ids-ListsRunning db) in
    (
      db',
      done,
      well',
      jobs',
      ap (count_where (has_job_status JobStatus.running)) jobs'
          ∙ count-update_clears (has_job_status JobStatus.running) (interrupted finished_at) db.jobs
              (interrupted-not_running finished_at),
    )
