-- ===== src/Lifecycle/Creation.antt =====
-- createQueuedJobWithSource (cmd/brain/jobs.go): when it succeeds, and the lookup after it.
use ovek.Common.{
  ◌≡◌, sym, ap, ◌∙◌, String, Bool, true, Option, none, some, [], ◌∷◌, ◌++◌, eq_refl, Option-cases,
  inl, inr, ◌⊎◌, Memᴰ, if◌then◌else◌, subst, text_lt,
}
use ovek.Store.{Db, JobRow, active_deployment, Job}
use ovek.Store.Sql.{Result, ok, err, select, select_row, count_where, first_row, order_by}
use ovek.Store.Rows.{count-select_row-none, select_row-snoc_none, select_row-count_zero}
use ovek.Store.Order.{count_of_no_first, mem_of_first}
use ovek.Projects.{is_active_of, ensure_project, sync_project_status}
use ovek.Projects.Laws.{sync-Synced, sync_total}
use ovek.Jobs.{
  scan_job, get_job, has_id, find_active_deployment_job, insert_job, decorate_job,
  reject_active_job, create_queued_job_with_source,
}
use ovek.Lifecycle.{IsKeyed, IsWellFormed}
use ovek.Lifecycle.Keys.{job_row_unique}
use ovek.Store.Laws.{no_row_of_count}
use ovek.Lifecycle.Create.{ensure_project-Ensured}
use ovek.Lifecycle.Created.{
  created_row, created_job, insert_job-ok, insert_job_total, find-idle, or_blank-nullable_string,
  get_job-found, create-steps,
}

find-some :
    (n : String) (db : Db) (row : JobRow)
    → first_row (
        order_by
          (λ (a : JobRow) (b : JobRow). text_lt a.created_at b.created_at)
          (select (is_active_of n) db.jobs))
      ≡ some row
    → find_active_deployment_job n db ≡ some (decorate_job (scan_job row))
unfolding find_active_deployment_job
find-some n db row e =
    ap {B = Option Job}
      (λ (o : Option JobRow). elim o [ none ↦ none | some r ↦ some (decorate_job (scan_job r)) ]) e

-- A job of the table is the one that a lookup of its id finds.
get_job-mem :
    (j : JobRow) (db : Db)
    → IsKeyed db.jobs db.projects
    → Memᴰ j db.jobs
    → get_job j.id db ≡ ok (decorate_job (scan_job j))
get_job-mem j db keyed mem = elim (Option-cases (select_row (has_id j.id) db.jobs)) [
  | inl e ↦ cc (
    no_row_of_count (has_id j.id) db.jobs j (count-select_row-none (has_id j.id) db.jobs e) mem,
    eq_refl j.id,
  )
  | inr (row, e) ↦ get_job-found j.id j db (
      e
      ∙ ap {B = Option JobRow} (λ r. some r)
          (sym (job_row_unique db.jobs db.projects keyed j.id row j e mem (eq_refl j.id))))
]

module _ (id at n source_type source_ref : String) (db : Db) where
  abbrev db1 : Db
  db1 = ensure_project n at db

  stored_job :
      decorate_job (scan_job (created_row id at n source_type source_ref db1))
      ≡ record (created_job id at n source_type source_ref db1) { phase = "queued" }
  unfolding decorate_job scan_job
  stored_job = rw or_blank-nullable_string

  -- The job that a creation returns is the one that a lookup finds afterwards, but for its phase.
  pub get_job-created :
      {job : Job} {db' : Db}
      → create_queued_job_with_source id at n source_type source_ref true db ≡ ok (job, db')
      → get_job id db' ≡ ok (record job { phase = "queued" })
  get_job-created {job} {db'} h =
      let (db2, idle, inserted, synced, is_job) =
        create-steps id at n source_type source_ref db h in
      let (new, is_db2) =
        insert_job-ok (created_row id at n source_type source_ref db1) db1 inserted in
      let sync = sync-Synced n db2 synced in
      let row = created_row id at n source_type source_ref db1 in
      get_job-found id row db' (
        ap (λ (d : Db). select_row (has_id id) d.jobs) sync.result
        ∙ ap (λ (d : Db). select_row (has_id id) d.jobs) is_db2
        ∙ select_row-snoc_none (has_id id) db1.jobs row
            (select_row-count_zero (has_id id) db1.jobs new)
        ∙ ap (λ (b : Bool). if b then some row else none) (eq_refl id))
      ∙ ap {B = Result Job} (λ j. ok j)
          (stored_job ∙ ap {B = Job} (λ j. record j { phase = "queued" }) (sym is_job))

  create-ok :
      (db2 db' : Db)
      → find_active_deployment_job n db1 ≡ none
      → insert_job (created_row id at n source_type source_ref db1) db1 ≡ ok db2
      → sync_project_status n db2 ≡ ok db'
      → create_queued_job_with_source id at n source_type source_ref true db
        ≡ ok (created_job id at n source_type source_ref db1, db')
  unfolding create_queued_job_with_source reject_active_job
  create-ok db2 db' idle inserted synced = rw (idle, inserted, synced)

  create-refused :
      (j : Job)
      → find_active_deployment_job n db1 ≡ some j
      → create_queued_job_with_source id at n source_type source_ref true db
        ≡ err (active_deployment j)
  unfolding create_queued_job_with_source reject_active_job
  create-refused j found = rw found

  -- With well-formed tables and a new id, a creation for a project with no active job succeeds, and
  -- one for a project with an active job reports such a job of the project, as a lookup of its id
  -- returns it.
  pub create_cases :
      IsWellFormed db
      → count_where (has_id id) db.jobs ≡ 0
      → ((count_where (is_active_of n) db.jobs ≡ 0)
          × (db' : Db) × (create_queued_job_with_source id at n source_type source_ref true db
              ≡ ok (created_job id at n source_type source_ref db1, db')))
        ⊎ ((active : JobRow) × (job : Job) × Memᴰ active db.jobs
            × (is_active_of n active ≡ true)
            × (get_job active.id db ≡ ok job)
            × (create_queued_job_with_source id at n source_type source_ref true db
                ≡ err (active_deployment job)))
  create_cases well new =
      let ensured = ensure_project-Ensured n at db well in
      let row = created_row id at n source_type source_ref db1 in
      elim (Option-cases (
        first_row (
          order_by (λ (a : JobRow) (b : JobRow). text_lt a.created_at b.created_at)
            (select (is_active_of n) db1.jobs)))) [
              | inl e ↦
                  let idle = count_of_no_first (is_active_of n) _ db1.jobs e in
                  let (db', synced) =
                    sync_total n (record db1 { jobs = db1.jobs ++ row ∷ [] }) ensured.one in
                  inl (
                    sym (ap (count_where (is_active_of n)) ensured.jobs) ∙ idle,
                    db',
                    create-ok (record db1 { jobs = db1.jobs ++ row ∷ [] }) db'
                        (find-idle n db1 idle)
                        (insert_job_total row db1 (ap (count_where (has_id id)) ensured.jobs ∙ new)
                          ensured.one)
                        synced,
                  )
              | inr (active, e) ↦
                  let (mem, holds) = mem_of_first (is_active_of n) _ db1.jobs active e in
                  let there = subst (Memᴰ active) ensured.jobs mem in
                  inr (
                    active,
                    decorate_job (scan_job active),
                    there,
                    holds,
                    get_job-mem active db well.keyed there,
                    create-refused (decorate_job (scan_job active)) (find-some n db1 active e),
                  )
            ]
