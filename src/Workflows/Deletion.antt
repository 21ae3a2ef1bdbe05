-- ===== src/Workflows/Deletion.antt =====
-- deleteWorkflowDefinition (cmd/brain/workflows.go).
use ovek.Common.{
  ℕ, ◌≡◌, refl, sym, ap, String, true, false, not, ◌&&◌, ◌||◌, inl, inr, if◌then◌else◌, Bool-cases,
  nat_eq, nat_eq_iff,
}
use ovek.Store.{Db, err_workflow_not_found}
use ovek.Store.Sql.{Result, ok, err, ok_inj, count_where, exists_where, delete_where}
use ovek.Store.Rows.{select_row-count_zero, exists_where-false, count-delete}
use ovek.Workflows.{
  is_workflow, get_workflow_definition, token_of_workflow, run_of_workflow, delete_workflow_row,
  delete_workflow_definition,
}
use ovek.Workflows.Definitions.{get-missing}

delete_row-ok :
    (p w : String) (db : Db) (rows_affected : ℕ) {db' : Db}
    → delete_workflow_row p w db ≡ ok (rows_affected, db')
    → nat_eq rows_affected 1 ≡ true
    → (count_where (run_of_workflow p w) db.workflow_runs ≡ 0)
      × (db' ≡ record db { workflows = delete_where (is_workflow p w) db.workflows })
unfolding delete_workflow_row
delete_row-ok p w db rows_affected {db'} h one =
    elim (Bool-cases (
      not (nat_eq (count_where (is_workflow p w) db.workflows) 0)
      && (exists_where (run_of_workflow p w) db.workflow_runs
          || exists_where (token_of_workflow p w) db.workflow_trigger_tokens))) [
            | inl e ↦ cc (rw e at h)
            | inr e ↦
                let same = ok_inj _ _ (rw e at h) in
                let counted = ap (λ (r : ℕ × Db). r.0) same in
                (unused counted e, sym (ap (λ (r : ℕ × Db). r.1) same))
          ]
  where
    unused :
        count_where (is_workflow p w) db.workflows ≡ rows_affected
        → (not (nat_eq (count_where (is_workflow p w) db.workflows) 0)
            && (exists_where (run_of_workflow p w) db.workflow_runs
                || exists_where (token_of_workflow p w) db.workflow_trigger_tokens))
          ≡ false
        → count_where (run_of_workflow p w) db.workflow_runs ≡ 0
    unused counted e = elim (Bool-cases (exists_where (run_of_workflow p w) db.workflow_runs)) [
      | inl f ↦ cc (rw (counted, (nat_eq_iff rows_affected 1).0 one, f) at e)
      | inr f ↦ exists_where-false (run_of_workflow p w) db.workflow_runs f
    ]

-- After a delete that succeeds the workflow is not found, and it has no trigger token and no run.
pub delete-gone :
    (p w : String) (db : Db) {db' : Db}
    → delete_workflow_definition p w db ≡ ok db'
    → (get_workflow_definition p w db' ≡ err err_workflow_not_found)
      × (count_where (token_of_workflow p w) db'.workflow_trigger_tokens ≡ 0)
      × (count_where (run_of_workflow p w) db'.workflow_runs ≡ 0)
unfolding delete_workflow_definition
delete-gone p w db {db'} h = gone (delete_workflow_row p w db1) refl h
  where
    db1 : Db
    db1 = record db {
      workflow_trigger_tokens = delete_where (token_of_workflow p w) db.workflow_trigger_tokens;
    }

    gone :
        (r : Result (ℕ × Db))
        → delete_workflow_row p w db1 ≡ r
        → ◌≡◌ {A = Result Db}
            (elim r [
              | err failure ↦ err failure
              | ok (rows_affected, db2) ↦
                  if nat_eq rows_affected 1 then ok db2 else err err_workflow_not_found
            ])
            (ok db')
        → (get_workflow_definition p w db' ≡ err err_workflow_not_found)
          × (count_where (token_of_workflow p w) db'.workflow_trigger_tokens ≡ 0)
          × (count_where (run_of_workflow p w) db'.workflow_runs ≡ 0)
    gone (err failure) e k = cc
    gone (ok (rows_affected, db2)) e k = elim (Bool-cases (nat_eq rows_affected 1)) [
      | inr one ↦ cc (rw one at k)
      | inl one ↦
          let (unused, is_db2) = delete_row-ok p w db1 rows_affected e one in
          rw (sym (ok_inj db2 db' (rw one at k)), is_db2)
            (
              get-missing p w
                  (record db {
                    workflows = delete_where (is_workflow p w) db.workflows;
                    workflow_trigger_tokens =
                        delete_where (token_of_workflow p w) db.workflow_trigger_tokens;
                  })
                  (select_row-count_zero (is_workflow p w)
                    (delete_where (is_workflow p w) db.workflows)
                    (count-delete (is_workflow p w) db.workflows)),
              count-delete (token_of_workflow p w) db.workflow_trigger_tokens,
              unused,
            )
    ]
