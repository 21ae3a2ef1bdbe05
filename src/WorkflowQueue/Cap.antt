-- ===== src/WorkflowQueue/Cap.antt =====
-- The queue cap and the scheduled tick of cmd/brain/workflows.go.
use ovek.Common.{
  ℕ, suc, ◌≤◌, ◌+◌, ◌≡◌, refl, sym, ap, ◌∙◌, String, Bool, true, false, some, arith, eq_refl,
  Option-cases, inl, inr, if◌then◌else◌, Bool-cases, trim_space, leb, ltb, not_ltb→le,
}
use ovek.Store.{Db, WorkflowRunRow, WorkflowRunStatus}
use ovek.Store.Sql.{Result, ok, err, bind-ok, ok_inj}
use ovek.Store.Rows.{count-snoc}
use ovek.Workflows.{Workflow, get_workflow_definition_query, capped}
use ovek.WorkflowRuns.{
  WorkflowRun, decorate_workflow_run, is_active_run, is_active_run_of, run_row, insert_workflow_run,
  count_active_workflow_runs,
}
use ovek.WorkflowQueue.{
  CreateWorkflowRunOptions, find_idempotent_run, create_queued_workflow_run_with_options,
  scheduled_run, create_scheduled_workflow_run,
}
use ovek.WorkflowQueue.Insert.{
  stored_run, with_run, requested, insert-ok, create-existing, create-queue, create-found, queue-ok,
}

-- One run more of the workflow, active or not.
count-with_run :
    (p w : String) (db : Db) (row : WorkflowRunRow)
    → row.project_name ≡ p
    → row.workflow_name ≡ w
    → count_active_workflow_runs p w (with_run db row)
      ≡ count_active_workflow_runs p w db + (if is_active_run row.status then 1 else 0)
unfolding count_active_workflow_runs
count-with_run p w db row e f =
    count-snoc (is_active_run_of p w) db.workflow_runs row ∙ rw (e, f, eq_refl p, eq_refl w)

module _ (new_id clock p w : String) (options : CreateWorkflowRunOptions) (db : Db) where
  -- A request that creates a run adds one active run to its workflow, and the active runs are then
  -- no more than the queue cap of the definition, or 64 where that is 0.
  pub created-within_cap :
      {run : WorkflowRun} {db' : Db}
      → create_queued_workflow_run_with_options new_id clock p w options db ≡ ok ((run, true), db')
      → (workflow : Workflow) × (get_workflow_definition_query p w db ≡ some workflow)
        × (count_active_workflow_runs p w db' ≡ suc (count_active_workflow_runs p w db))
        × (count_active_workflow_runs p w db' ≤ capped workflow.queue_cap)
  created-within_cap {run} {db'} h =
      let (workflow, found) = create-found new_id clock p w options db h in
      elim (Option-cases (find_idempotent_run p w (trim_space options.idempotency_key) db)) [
        | inr (existing, e) ↦ cc (
            ap created_flag
              (sym h ∙ create-existing new_id clock p w options db workflow existing found e))
        | inl e ↦
            let (free, new, is_r) =
              queue-ok new_id clock p w options db workflow
                (sym (create-queue new_id clock p w options db workflow found e) ∙ h) in
            let row =
              run_row (stored_run new_id clock (requested new_id clock p w options db workflow)) in
            let counted =
              ap (λ (r : (WorkflowRun × Bool) × Db). count_active_workflow_runs p w r.1) is_r
              ∙ count-with_run p w db row refl refl in
            (workflow, found, one_more counted, within (one_more counted) free)
      ]
    where
      created_flag : Result ((WorkflowRun × Bool) × Db) → Bool
      created_flag (ok r) = r.0.1
      created_flag (err e) = false

      one_more :
          {m : ℕ}
          → m ≡ count_active_workflow_runs p w db + 1
          → m ≡ suc (count_active_workflow_runs p w db)
      one_more e = omega arith

      within : {m n c : ℕ} → m ≡ suc n → leb c n ≡ false → m ≤ c
      within e f = ground (arith, e, f)

module _ (new_id clock p w : String) (db : Db) where
  scheduled-names :
      (workflow : Workflow)
      → ((scheduled_run clock p w workflow db).project_name ≡ p)
        × ((scheduled_run clock p w workflow db).workflow_name ≡ w)
  unfolding scheduled_run
  scheduled-names workflow = elim (Bool-cases (ltb 0 (count_active_workflow_runs p w db))) [
    | inl e ↦ rw e (refl, refl)
    | inr e ↦ rw e (refl, refl)
  ]

  scheduled-status :
      (workflow : Workflow)
      → (scheduled_run clock p w workflow db).status ≡ (
          if ltb 0 (count_active_workflow_runs p w db)
          then WorkflowRunStatus.skipped
          else WorkflowRunStatus.queued)
  unfolding scheduled_run
  scheduled-status workflow = elim (Bool-cases (ltb 0 (count_active_workflow_runs p w db))) [
    | inl e ↦ rw e
    | inr e ↦ rw e
  ]

  tally :
      (workflow : Workflow)
      → count_active_workflow_runs p w db
          + (if is_active_run (scheduled_run clock p w workflow db).status then 1 else 0)
        ≡ (if ltb 0 (count_active_workflow_runs p w db)
            then count_active_workflow_runs p w db
            else 1)
  tally workflow =
      rw (scheduled-status workflow)
        (elim (Bool-cases (ltb 0 (count_active_workflow_runs p w db))) [
          | inl e ↦ rw e (omega arith)
          | inr e ↦ rw e (idle (not_ltb→le _ _ e))
        ])
    where
      idle : {n : ℕ} → n ≤ 0 → n + 1 ≡ 1
      idle l = omega arith

  -- A scheduled tick always records a run: one that is queued if no run of the workflow was active,
  -- and a skipped one otherwise. The active runs are never more than before, or one.
  pub scheduled-active :
      {run : WorkflowRun} {db' : Db}
      → create_scheduled_workflow_run new_id clock p w db ≡ ok (run, db')
      → (run.status ≡ (
          if ltb 0 (count_active_workflow_runs p w db)
          then WorkflowRunStatus.skipped
          else WorkflowRunStatus.queued))
        × (count_active_workflow_runs p w db' ≡ (
            if ltb 0 (count_active_workflow_runs p w db)
            then count_active_workflow_runs p w db
            else 1))
  unfolding create_scheduled_workflow_run decorate_workflow_run
  scheduled-active {run} {db'} h = elim (Option-cases (get_workflow_definition_query p w db)) [
    | inl e ↦ cc (rw (e, create_scheduled_workflow_run) at h)
    | inr (workflow, e) ↦
        let ((stored, db1), inserted, done) =
          bind-ok (insert_workflow_run new_id clock (scheduled_run clock p w workflow db) db) _
            (rw (e, create_scheduled_workflow_run) at h) in
        let (is_stored, new, is_db1) =
          insert-ok new_id clock (scheduled_run clock p w workflow db) db inserted in
        let same = ok_inj _ _ done in
        let run_is =
          sym (ap (λ (r : WorkflowRun × Db). r.0.status) same)
          ∙ ap (λ (r : WorkflowRun). r.status) is_stored in
        let db_is = sym (ap (λ (r : WorkflowRun × Db). r.1) same) ∙ is_db1 in
        let counted =
          ap (count_active_workflow_runs p w) db_is
          ∙ count-with_run p w db
              (run_row (stored_run new_id clock (scheduled_run clock p w workflow db)))
              (scheduled-names workflow).0 (scheduled-names workflow).1 in
        (run_is ∙ scheduled-status workflow, counted ∙ tally workflow)
  ]
