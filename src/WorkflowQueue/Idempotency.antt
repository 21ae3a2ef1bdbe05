-- ===== src/WorkflowQueue/Idempotency.antt =====
-- Idempotency keys of createQueuedWorkflowRunWithOptions (cmd/brain/workflows.go).
use ovek.Common.{
  ◌≡◌, ◌≢◌, refl, sym, ap, ◌∙◌, String, Bool, true, false, none, some, ◌==◌, eq_refl, Option-cases,
  inl, inr, if◌then◌else◌, Bool-cases, trim_space, trim_space_idem,
}
use ovek.Store.{Db, WorkflowRunRow}
use ovek.Store.Sql.{Result, ok, ok_inj, select_row, nullable_string}
use ovek.Store.Rows.{select_row-snoc_none}
use ovek.Projects.Frames.{==-false}
use ovek.Workflows.{get_workflow_definition_query}
use ovek.WorkflowRuns.{
  WorkflowRun, scan_workflow_run, decorate_workflow_run, normalize_workflow_run_payload,
  has_idempotency_key, get_workflow_run_by_idempotency_key, run_row,
}
use ovek.WorkflowQueue.{
  CreateWorkflowRunOptions, find_idempotent_run, create_queued_workflow_run_with_options,
}
use ovek.WorkflowQueue.Insert.{
  stored_run, with_run, requested, create-existing, create-queue, create-found, queue-ok,
}
use ovek.Lifecycle.Created.{or_blank-nullable_string}

normalize_trimmed :
    (s : String) → trim_space (normalize_workflow_run_payload s) ≡ normalize_workflow_run_payload s
unfolding normalize_workflow_run_payload
normalize_trimmed s = elim (Bool-cases (trim_space s == "")) [
  | inl e ↦ rw e (unfold trim_space in refl)
  | inr e ↦ rw e (trim_space_idem s)
]

-- A stored run is read back as it was.
scan-run_row :
    (run : WorkflowRun)
    → trim_space run.payload ≡ run.payload
    → decorate_workflow_run (scan_workflow_run (run_row run)) ≡ decorate_workflow_run run
unfolding decorate_workflow_run scan_workflow_run
scan-run_row run trimmed =
    let o = or_blank-nullable_string in
    rw (
      trimmed,
      o run.config_revision_id,
      o run.log_path,
      o run.payload,
      o run.idempotency_key,
      o run.trigger_token_id,
      o run.resolved_repo_digest,
      o run.runtime_image_id,
      o run.error_message,
      o run.started_at,
      o run.finished_at,
    )

find-none :
    (p w key : String) (db : Db)
    → (key == "") ≡ false
    → find_idempotent_run p w key db ≡ none
    → select_row (has_idempotency_key p w key) db.workflow_runs ≡ none
unfolding find_idempotent_run get_workflow_run_by_idempotency_key
find-none p w key db given h =
    elim (Option-cases (select_row (has_idempotency_key p w key) db.workflow_runs)) [
      | inl e ↦ e
      | inr (row, e) ↦ cc (rw (given, e, get_workflow_run_by_idempotency_key) at h)
    ]

find-row :
    (p w key : String) (db : Db) (row : WorkflowRunRow)
    → (key == "") ≡ false
    → select_row (has_idempotency_key p w key) db.workflow_runs ≡ some row
    → find_idempotent_run p w key db ≡ some (scan_workflow_run row)
unfolding find_idempotent_run get_workflow_run_by_idempotency_key
find-row p w key db row given e = rw (given, e, get_workflow_run_by_idempotency_key)

stored-key :
    (p w key : String) (row : WorkflowRunRow)
    → (key == "") ≡ false
    → row.project_name ≡ p
    → row.workflow_name ≡ w
    → row.idempotency_key ≡ nullable_string key
    → has_idempotency_key p w key row ≡ true
unfolding nullable_string
stored-key p w key row given e f g = rw (e, f, g, given, eq_refl p, eq_refl w, eq_refl key)

definition-with_run :
    (p w : String) (db : Db) (row : WorkflowRunRow)
    → get_workflow_definition_query p w (with_run db row) ≡ get_workflow_definition_query p w db
unfolding get_workflow_definition_query
definition-with_run p w db row = refl

-- A request whose trimmed key is not blank and that succeeds makes a later one with the same key
-- return the same run, create nothing and change nothing, whatever its other options are.
pub create_idempotent :
    (id1 clock1 id2 clock2 p w : String) (options1 options2 : CreateWorkflowRunOptions) (db : Db)
    {run : WorkflowRun} {was_created : Bool} {db1 : Db}
    → trim_space options1.idempotency_key ≢ ""
    → trim_space options2.idempotency_key ≡ trim_space options1.idempotency_key
    → create_queued_workflow_run_with_options id1 clock1 p w options1 db
      ≡ ok ((run, was_created), db1)
    → create_queued_workflow_run_with_options id2 clock2 p w options2 db1 ≡ ok ((run, false), db1)
create_idempotent id1 clock1 id2 clock2 p w options1 options2 db {run} {was_created} {db1} given
      same h =
    let key = trim_space options1.idempotency_key in
    let not_blank = ==-false key "" given in
    let (workflow, found) = create-found id1 clock1 p w options1 db h in
    elim (Option-cases (find_idempotent_run p w key db)) [
      | inr (existing, e) ↦
          let is_r =
            ok_inj _ _
              (sym h ∙ create-existing id1 clock1 p w options1 db workflow existing found e) in
          rw
            (
              ap (λ (r : (WorkflowRun × Bool) × Db). r.1) is_r,
              ap (λ (r : (WorkflowRun × Bool) × Db). r.0.0) is_r,
            )
            (create-existing id2 clock2 p w options2 db workflow existing found
              (ap (λ k. find_idempotent_run p w k db) same ∙ e))
      | inl e ↦
          let (free, new, is_r) =
            queue-ok id1 clock1 p w options1 db workflow
              (sym (create-queue id1 clock1 p w options1 db workflow found e) ∙ h) in
          let stored = stored_run id1 clock1 (requested id1 clock1 p w options1 db workflow) in
          rw
            (
              ap (λ (r : (WorkflowRun × Bool) × Db). r.1) is_r,
              ap (λ (r : (WorkflowRun × Bool) × Db). r.0.0) is_r,
            )
            (create-existing id2 clock2 p w options2 (with_run db (run_row stored)) workflow
                (scan_workflow_run (run_row stored))
                (definition-with_run p w db (run_row stored) ∙ found)
                (ap (λ k. find_idempotent_run p w k (with_run db (run_row stored))) same
                  ∙ find-row p w key (with_run db (run_row stored)) (run_row stored) not_blank (
                      select_row-snoc_none (has_idempotency_key p w key) db.workflow_runs
                        (run_row stored) (find-none p w key db not_blank e)
                      ∙ ap (λ (b : Bool). if b then some (run_row stored) else none)
                          (stored-key p w key (run_row stored) not_blank refl refl refl)))
              ∙ ap {B = Result ((WorkflowRun × Bool) × Db)}
                  (λ r. ok ((r, false), with_run db (run_row stored)))
                  (scan-run_row stored (normalize_trimmed options1.payload)))
    ]
