-- ===== src/WorkflowManager/Recovery.antt =====
-- recoverInterruptedWorkflowRuns (cmd/brain/workflow_manager.go).
use ovek.Common.{
  ℕ, suc, ◌≤◌, ◌≡◌, refl, sym, ap, ◌∙◌, String, Bool, true, false, ◌&&◌, List, [], ◌∷◌, arith, ◌==◌,
  eq_iff, eq_refl, inl, inr, Bool-cases, Memᴰ,
}
use ovek.Store.{Db, WorkflowRunRow, WorkflowRunStatus, run_status_eq}
use ovek.Store.Sql.{select, count_where, update_where, order_by}
use ovek.Store.Laws.{count-update, count_mono, no_row_of_count}
use ovek.Store.Rows.{
  count-ext, count-map, count-update_clears, update-update, update_none, update_ext,
}
use ovek.Store.Order.{count-order_by, count-select}
use ovek.WorkflowRuns.{is_run}
use ovek.WorkflowManager.{
  no_run_result, interrupted_workflow_run_error_message, is_started, is_started_run,
  list_interrupted_workflow_run_ids, run_ended, update_runs, mark_workflow_run_terminal,
  mark_workflow_run_failed, fail_interrupted_runs, recover_interrupted_workflow_runs,
}
use ovek.Lifecycle.Recovery.{count-cons_true, count-cons_false}

-- The row that an interrupted run is left with, from the clock's reading at each run.
abbrev pub interrupted_run : (String → String) → WorkflowRunRow → WorkflowRunRow
interrupted_run finished_at run =
    run_ended WorkflowRunStatus.failed (finished_at run.id) interrupted_workflow_run_error_message
      no_run_result run

abbrev pub with_runs : Db → List WorkflowRunRow → Db
with_runs db rows = record db { workflow_runs = rows }

-- Each id stands in the list as often as a started run has it.
abbrev pub ListsStarted : List String → List WorkflowRunRow → Type 0
ListsStarted ids rows =
    (id : String) → count_where (λ i. i == id) ids ≡ count_where (is_started_run id) rows

abbrev pub AreUnique : List WorkflowRunRow → Type 0
AreUnique rows = (id : String) → count_where (is_run id) rows ≤ 1

list-ListsStarted : (db : Db) → ListsStarted (list_interrupted_workflow_run_ids db) db.workflow_runs
unfolding list_interrupted_workflow_run_ids
list-ListsStarted db id =
    count-map (λ i. i == id) (λ (r : WorkflowRunRow). r.id)
      (order_by _ (select is_started db.workflow_runs))
    ∙ count-order_by (λ (r : WorkflowRunRow). r.id == id) _ (select is_started db.workflow_runs)
    ∙ count-select (λ (r : WorkflowRunRow). r.id == id) is_started db.workflow_runs
    ∙ count-ext (λ (r : WorkflowRunRow). is_started r && (r.id == id)) (is_started_run id)
        db.workflow_runs (λ r. ground arith)

not_started :
    (finished_at : String → String) (r : WorkflowRunRow)
    → is_started (interrupted_run finished_at r) ≡ false
unfolding run_status_eq
not_started finished_at r = refl

started-id : (id : String) (r : WorkflowRunRow) → is_started_run id r ≡ true → r.id ≡ id
started-id id r h = elim (Bool-cases (r.id == id)) [
  | inl e ↦ (eq_iff r.id id).0 e
  | inr e ↦ cc (rw e at h)
]

started-fewer :
    (id : String) (rows : List WorkflowRunRow)
    → count_where (is_started_run id) rows ≤ count_where (is_run id) rows
started-fewer id rows = count_mono (is_run id) (is_started_run id) rows (λ y h. ground (arith, h))

rest-AreUnique :
    (finished_at : String → String) (id : String) (rows : List WorkflowRunRow)
    → AreUnique rows
    → AreUnique (update_where (is_started_run id) (interrupted_run finished_at) rows)
rest-AreUnique finished_at id rows unique k =
    rw
      (count-update (is_run k) (is_started_run id) (interrupted_run finished_at) rows
        (λ x mem h. refl))
      (unique k)

rest-ListsStarted :
    (finished_at : String → String) (id : String) (ids : List String) (rows : List WorkflowRunRow)
    → AreUnique rows
    → ListsStarted (id ∷ ids) rows
    → ListsStarted ids (update_where (is_started_run id) (interrupted_run finished_at) rows)
unfolding run_status_eq
rest-ListsStarted finished_at id ids rows unique lists k = elim (Bool-cases (id == k)) [
  | inl e ↦
      none_left (sym (count-cons_true k id ids e) ∙ lists k) (started-fewer k rows) (unique k)
      ∙ sym (
          ap
            (λ i.
              count_where (is_started_run i)
                (update_where (is_started_run id) (interrupted_run finished_at) rows))
            (sym ((eq_iff id k).0 e))
          ∙ count-update_clears (is_started_run id) (interrupted_run finished_at) rows
              (λ x. ground arith))
  | inr e ↦
      sym (count-cons_false k id ids e)
      ∙ lists k
      ∙ sym (
          count-update (is_started_run k) (is_started_run id) (interrupted_run finished_at) rows
            (λ x mem h. elsewhere x e (started-id id x h)))
]
  where
    none_left : {c m n : ℕ} → suc c ≡ m → m ≤ n → n ≤ 1 → c ≡ 0
    none_left e l l' = omega arith

    elsewhere :
        (x : WorkflowRunRow)
        → (id == k) ≡ false
        → x.id ≡ id
        → is_started_run k (interrupted_run finished_at x) ≡ is_started_run k x
    elsewhere x e same = rw (same, e)

fail_runs-nil :
    (finished_at : String → String) (db : Db) → fail_interrupted_runs finished_at [] db ≡ (true, db)
unfolding fail_interrupted_runs
fail_runs-nil finished_at db = refl

fail_runs-cons :
    (finished_at : String → String) (id : String) (ids : List String) (db : Db)
    → count_where (is_started_run id) db.workflow_runs ≡ 1
    → fail_interrupted_runs finished_at (id ∷ ids) db
      ≡ fail_interrupted_runs finished_at ids (
          with_runs db
            (update_where (is_started_run id) (interrupted_run finished_at) db.workflow_runs))
unfolding fail_interrupted_runs mark_workflow_run_failed mark_workflow_run_terminal update_runs
fail_runs-cons finished_at id ids db one = rw (one, at_own_reading)
  where
    at_own_reading :
        update_where
          (is_started_run id)
          (run_ended WorkflowRunStatus.failed
            (finished_at id)
            interrupted_workflow_run_error_message
            no_run_result)
          db.workflow_runs
        ≡ update_where (is_started_run id) (interrupted_run finished_at) db.workflow_runs
    at_own_reading =
        update_ext (is_started_run id) _ (interrupted_run finished_at) db.workflow_runs
          (λ x h. own_reading x (started-id id x h))
      where
        own_reading :
            (x : WorkflowRunRow)
            → x.id ≡ id
            → run_ended WorkflowRunStatus.failed
                (finished_at id)
                interrupted_workflow_run_error_message
                no_run_result
                x
              ≡ interrupted_run finished_at x
        own_reading x e = rw e refl

no_started :
    (rows : List WorkflowRunRow)
    → ListsStarted [] rows
    → (r : WorkflowRunRow) → Memᴰ r rows
    → is_started r ≡ false
unfolding count_where
no_started rows lists r mem =
    dead (no_row_of_count (is_started_run r.id) rows r (sym (lists r.id)) mem) (eq_refl r.id)
  where
    dead : is_started_run r.id r ≡ false → (r.id == r.id) ≡ true → is_started r ≡ false
    dead h e = rw e at h

fail_runs_total :
    (finished_at : String → String) (ids : List String) (db : Db)
    → AreUnique db.workflow_runs
    → ListsStarted ids db.workflow_runs
    → fail_interrupted_runs finished_at ids db ≡ (
      true,
      with_runs db (update_where is_started (interrupted_run finished_at) db.workflow_runs),
    )
fail_runs_total finished_at [] db unique lists =
    fail_runs-nil finished_at db
    ∙ ap {B = Bool × Db} (λ rows. (true, with_runs db rows))
        (sym (
          update_none is_started (interrupted_run finished_at) db.workflow_runs
            (no_started db.workflow_runs lists)))
fail_runs_total finished_at (id ∷ ids) db unique lists =
    let rows1 = update_where (is_started_run id) (interrupted_run finished_at) db.workflow_runs in
    fail_runs-cons finished_at id ids db (
      exactly (sym (count-cons_true id id ids (eq_refl id)) ∙ lists id)
        (started-fewer id db.workflow_runs) (unique id))
    ∙ fail_runs_total finished_at ids (with_runs db rows1)
        (rest-AreUnique finished_at id db.workflow_runs unique)
        (rest-ListsStarted finished_at id ids db.workflow_runs unique lists)
    ∙ ap {B = Bool × Db} (λ rows. (true, with_runs db rows))
        (update-update is_started (is_started_run id) (interrupted_run finished_at) db.workflow_runs
          (λ x h. ground (arith, h)) (not_started finished_at))
  where
    exactly : {c m n : ℕ} → suc c ≡ m → m ≤ n → n ≤ 1 → m ≡ 1
    exactly e l l' = omega arith

-- Where the ids of runs are unique, the recovery at a restart meets every run that was preparing or
-- running, reports no failure, and leaves the tables as one update of those runs to failed ones does, each with the clock's reading at
-- that run.
pub recover_runs_total :
    (finished_at : String → String) (db : Db)
    → AreUnique db.workflow_runs
    → recover_interrupted_workflow_runs finished_at db ≡ (
      true,
      with_runs db (update_where is_started (interrupted_run finished_at) db.workflow_runs),
    )
unfolding recover_interrupted_workflow_runs
recover_runs_total finished_at db unique =
    fail_runs_total finished_at (list_interrupted_workflow_run_ids db) db unique
      (list-ListsStarted db)
