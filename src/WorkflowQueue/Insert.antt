-- ===== src/WorkflowQueue/Insert.antt =====
-- insertWorkflowRunTx and createQueuedWorkflowRunWithOptions (cmd/brain/workflows.go), branch by branch.
use ovek.Common.{
  ◌≡◌, sym, ap, ap₂, ◌∙◌, String, Bool, true, false, not, ◌||◌, none, some, [], ◌∷◌, ◌++◌, ◌==◌,
  Option-cases, inl, inr, if◌then◌else◌, Bool-cases, trim_space, leb,
}
use ovek.Store.{Db, WorkflowRunRow, WorkflowRunStatus}
use ovek.Store.Sql.{ok, bind-ok, ok_inj, count_where, exists_where}
use ovek.Store.Rows.{exists_where-false}
use ovek.Projects.{has_name, latest_project_config_revision_id}
use ovek.Jobs.{or_blank}
use ovek.Workflows.{Workflow, is_workflow, get_workflow_definition_query, capped}
use ovek.WorkflowRuns.{
  WorkflowRun, decorate_workflow_run, normalize_workflow_run_payload, is_run, clashes,
  insert_workflow_run_row, run_row, insert_workflow_run, count_active_workflow_runs,
}
use ovek.WorkflowQueue.{
  CreateWorkflowRunOptions, run_of, trimmed_trigger, queue_new_run, find_idempotent_run,
  create_queued_workflow_run_with_options,
}

-- The run that is stored: the id and the time are the given ones, or new.
abbrev pub stored_run : String → String → WorkflowRun → WorkflowRun
stored_run new_id clock run = record run {
  id = if trim_space run.id == "" then new_id else trim_space run.id;
  created_at = if trim_space run.created_at == "" then clock else trim_space run.created_at;
}

abbrev pub with_run : Db → WorkflowRunRow → Db
with_run db row = record db { workflow_runs = db.workflow_runs ++ row ∷ [] }

insert_row-ok :
    (row : WorkflowRunRow) (db : Db) {db' : Db}
    → insert_workflow_run_row row db ≡ ok db'
    → (exists_where (is_run row.id) db.workflow_runs ≡ false) × (db' ≡ with_run db row)
unfolding insert_workflow_run_row
insert_row-ok row db {db'} h = elim (Bool-cases (exists_where (is_run row.id) db.workflow_runs)) [
  | inl e ↦ cc (rw e at h)
  | inr e ↦ (
    e,
    (elim (Bool-cases (
        exists_where (clashes row) db.workflow_runs
        || not (exists_where (has_name row.project_name) db.projects)
        || not (exists_where (is_workflow row.project_name row.workflow_name) db.workflows))) [
          | inl k ↦ cc (rw (e, k) at h)
          | inr k ↦ sym (ok_inj _ _ (rw (e, k) at h))
        ]),
  )
]

pub insert-ok :
    (new_id clock : String) (run : WorkflowRun) (db : Db) {stored : WorkflowRun} {db' : Db}
    → insert_workflow_run new_id clock run db ≡ ok (stored, db')
    → (stored ≡ stored_run new_id clock run)
      × (count_where (is_run (stored_run new_id clock run).id) db.workflow_runs ≡ 0)
      × (db' ≡ with_run db (run_row (stored_run new_id clock run)))
unfolding insert_workflow_run
insert-ok new_id clock run db h =
    let (db1, inserted, done) =
      bind-ok (insert_workflow_run_row (run_row (stored_run new_id clock run)) db) _ h in
    let (new, is_db1) = insert_row-ok (run_row (stored_run new_id clock run)) db inserted in
    let same = ok_inj _ _ done in
    (
      sym (ap (λ (r : WorkflowRun × Db). r.0) same),
      exists_where-false (is_run (stored_run new_id clock run).id) db.workflow_runs new,
      sym (ap (λ (r : WorkflowRun × Db). r.1) same) ∙ is_db1,
    )

module _ (new_id clock project_name workflow_name : String) (options : CreateWorkflowRunOptions)
    (db : Db) where
  -- The run that a request asks for, when a definition is found.
  abbrev pub requested : Workflow → WorkflowRun
  requested workflow =
      record (run_of workflow project_name workflow_name (trimmed_trigger options)
        WorkflowRunStatus.queued) {
          config_revision_id = or_blank (latest_project_config_revision_id project_name db);
          payload = normalize_workflow_run_payload options.payload;
          idempotency_key = trim_space options.idempotency_key;
          trigger_token_id = trim_space options.trigger_token_id;
        }

  pub create-existing :
      (workflow : Workflow) (existing : WorkflowRun)
      → get_workflow_definition_query project_name workflow_name db ≡ some workflow
      → find_idempotent_run project_name workflow_name (trim_space options.idempotency_key) db
        ≡ some existing
      → create_queued_workflow_run_with_options new_id clock project_name workflow_name options db
        ≡ ok ((decorate_workflow_run existing, false), db)
  unfolding create_queued_workflow_run_with_options
  create-existing workflow existing e f = rw (e, f, create_queued_workflow_run_with_options)

  pub create-queue :
      (workflow : Workflow)
      → get_workflow_definition_query project_name workflow_name db ≡ some workflow
      → find_idempotent_run project_name workflow_name (trim_space options.idempotency_key) db
        ≡ none
      → create_queued_workflow_run_with_options new_id clock project_name workflow_name options db
        ≡ queue_new_run new_id clock project_name workflow_name options workflow db
  unfolding create_queued_workflow_run_with_options
  create-queue workflow e f = rw (e, f, create_queued_workflow_run_with_options)

  pub create-found :
      {r : (WorkflowRun × Bool) × Db}
      → create_queued_workflow_run_with_options new_id clock project_name workflow_name options db
        ≡ ok r
      → (workflow : Workflow) × (get_workflow_definition_query project_name workflow_name db
          ≡ some workflow)
  unfolding create_queued_workflow_run_with_options
  create-found h =
      elim (Option-cases (get_workflow_definition_query project_name workflow_name db)) [
        | inl e ↦ cc (rw (e, create_queued_workflow_run_with_options) at h)
        | inr found ↦ found
      ]

  -- Inversion of a request that creates a run.
  pub queue-ok :
      (workflow : Workflow) {r : (WorkflowRun × Bool) × Db}
      → queue_new_run new_id clock project_name workflow_name options workflow db ≡ ok r
      → (leb (capped workflow.queue_cap) (count_active_workflow_runs project_name workflow_name db)
          ≡ false)
        × (count_where (is_run (stored_run new_id clock (requested workflow)).id) db.workflow_runs
            ≡ 0)
        × (r ≡ (
          (decorate_workflow_run (stored_run new_id clock (requested workflow)), true),
          with_run db (run_row (stored_run new_id clock (requested workflow))),
        ))
  unfolding queue_new_run
  queue-ok workflow {r} h =
      elim (Bool-cases (
        leb (capped workflow.queue_cap)
          (count_active_workflow_runs project_name workflow_name db))) [
            | inl e ↦ cc (rw e at h)
            | inr e ↦
                let ((stored, db1), inserted, done) =
                  bind-ok (insert_workflow_run new_id clock (requested workflow) db) _
                    (rw e at h) in
                let (is_stored, new, is_db1) =
                  insert-ok new_id clock (requested workflow) db inserted in
                (
                  e,
                  new,
                  sym (ok_inj _ _ done)
                      ∙ ap₂ {C = (WorkflowRun × Bool) × Db}
                          (λ s d. ((decorate_workflow_run s, true), d)) is_stored is_db1,
                )
          ]
