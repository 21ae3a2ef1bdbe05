-- ===== src/Cleanup/Outcome.antt =====
-- What Cleanup and RemoveRuntime of cmd/brain/cleanup.go leave in the database, by the answers of
-- the runtime.
use ovek.Common.{◌≡◌, refl, sym, ap, ◌∙◌, ◌⊎◌, inl, inr, String, true, false, not, ◌&&◌, Bool-cases}
use ovek.Store.{Db}
use ovek.Store.Sql.{ok}
use ovek.Projects.{project_exists}
use ovek.Workflows.{clear_project_workflow_state}
use ovek.Runtime.{
  ServiceError, requires_database_removal, err_project_not_found, done, refused, Flow, ◌>>◌, refuse,
  transact,
}
use ovek.Runtime.Laws.{Answer-cases, bind-done, bind-refused, transact-then}
use ovek.Cleanup.Listing.{list_project_deployment_image_refs, clear_project_runtime_state}
use ovek.Cleanup.Removal.{
  Cleaner, RuntimeRemovalOptions, require_project, tear_down_project, project_file_paths, cleanup,
  tear_down_apps, tear_down_database, remove_runtime,
}
use ovek.Cleanup.Clearing.{
  IsDown, HasNoWorkflows, clear_total, clear-IsDown, clear-HasNoWorkflows, KeepsWorkflows,
  clear-KeepsWorkflows,
}
use ovek.Cleanup.Steps.{
  tidy, tidy-IsIdle, tear_down_project-IsQuiet, tear_down_apps-IsQuiet, tear_down_database-IsQuiet,
}

module _ {W : Type 0} (cleaner : Cleaner W) where
  require_project-missing :
      (n : String) (w : W) (db : Db)
      → project_exists n db ≡ false
      → (require_project cleaner n w db).0 ≡ refused err_project_not_found
  unfolding require_project refuse
  require_project-missing n w db h = rw h

  -- A project that is not there ends the flow.
  require_then-exists :
      (rest : Flow W (Unit {0})) (n : String) (w : W) (db : Db)
      → ((require_project cleaner n >> rest) w db).0 ≡ done tt
      → project_exists n db ≡ true
  require_then-exists rest n w db h = elim (Bool-cases (project_exists n db)) [
    | inl e ↦ e
    | inr e ↦ cc (
      ap (λ x. x.0)
          (bind-refused (require_project cleaner n) (λ _. rest) w db
            (require_project-missing n w db e)),
      h,
    )
  ]

  tear_down_project-exists :
      (n : String) (w : W) (db : Db)
      → (tear_down_project cleaner n w db).0 ≡ done tt
      → project_exists n db ≡ true
  unfolding tear_down_project
  tear_down_project-exists n w db h = require_then-exists _ n w db h

  -- A cleanup whose teardown is done.
  cleanup_done :
      (n : String) (w : W) (db : Db) {db1 : Db}
      → (tear_down_project cleaner n w db).0 ≡ done tt
      → clear_project_runtime_state n db ≡ ok db1
      → ((cleanup cleaner n w db).0 ≡ done tt)
        × ((cleanup cleaner n w db).2 ≡ clear_project_workflow_state n db1)
  unfolding cleanup
  cleanup_done n w db {db1} torn cleared =
      let w1 = (tear_down_project cleaner n w db).1 in
      let idle =
        tidy-IsIdle cleaner n (list_project_deployment_image_refs n db)
          (project_file_paths cleaner n db) in
      let run =
        bind-done (tear_down_project cleaner n) _ w db torn
        ∙ ap
            (λ d.
              (transact (clear_project_runtime_state n)
                  >> (transact (λ db1. ok (clear_project_workflow_state n db1))
                      >> tidy cleaner n (list_project_deployment_image_refs n db)
                          (project_file_paths cleaner n db)))
                w1 d)
            ((tear_down_project-IsQuiet cleaner n).same_db w db)
        ∙ transact-then (clear_project_runtime_state n) _ w1 db cleared
        ∙ transact-then (λ db1. ok (clear_project_workflow_state n db1)) _ w1 db1 refl in
      (ap (λ x. x.0) run ∙ idle.is_done _ _, ap (λ x. x.2) run ∙ idle.is_quiet.same_db _ _)

  wf-IsDown :
      (n : String) (db : Db) {db1 : Db}
      → IsDown n db db1
      → IsDown n db (clear_project_workflow_state n db1)
  unfolding clear_project_workflow_state
  wf-IsDown n db d = record {
    no_succeeded = d.no_succeeded;
    no_current = d.no_current;
    not_up = d.not_up;
    one_project = d.one_project;
    same_jobs = d.same_jobs;
  }

  -- When every step of the teardown is done, a cleanup is done, and its project has no deployment
  -- that succeeded, no current deployment, no status of a running project and no workflow, run or
  -- token, while the jobs stay. Otherwise the database stays as it was.
  pub cleanup_all_or_nothing :
      (n : String) (w : W) (db : Db)
      → (((tear_down_project cleaner n w db).0 ≡ done tt)
          × ((cleanup cleaner n w db).0 ≡ done tt)
          × IsDown n db (cleanup cleaner n w db).2
          × HasNoWorkflows n (cleanup cleaner n w db).2)
        ⊎ ((e : ServiceError) × ((tear_down_project cleaner n w db).0 ≡ refused e)
            × ((cleanup cleaner n w db).0 ≡ refused e)
            × ((cleanup cleaner n w db).2 ≡ db))
  unfolding cleanup
  cleanup_all_or_nothing n w db = elim (Answer-cases (tear_down_project cleaner n w db).0) [
    | inr (e, h) ↦
        let run = bind-refused (tear_down_project cleaner n) _ w db h in
        inr (
          e,
          h,
          ap (λ x. x.0) run,
          ap (λ x. x.2) run ∙ (tear_down_project-IsQuiet cleaner n).same_db w db,
        )
    | inl (t, h) ↦
        let (db1, cleared) = clear_total n db (tear_down_project-exists n w db h) in
        let (finished, left) = cleanup_done n w db h cleared in
        inl (
          h,
          finished,
          rw left (wf-IsDown n db (clear-IsDown n db cleared)),
          rw left (clear-HasNoWorkflows n db1),
        )
  ]

  tear_down_apps-exists :
      (n : String) (w : W) (db : Db)
      → (tear_down_apps cleaner n w db).0 ≡ done tt
      → project_exists n db ≡ true
  unfolding tear_down_apps
  tear_down_apps-exists n w db h = require_then-exists _ n w db h

  abbrev change_then : String → RuntimeRemovalOptions → Flow W (Unit {0})
  change_then n options =
      transact (clear_project_runtime_state n) >> tear_down_database cleaner n options

  -- A removal of the runtime ends at its guard, with nothing done; or the apps or the ingress
  -- could not be removed, and the database is as it was; or they are removed, the project is down
  -- in the database, the tables of workflows, runs and trigger tokens are as they were, and the
  -- answer is that of the removal of its database.
  pub remove_runtime-cases :
      (n : String) (options : RuntimeRemovalOptions) (w : W) (db : Db)
      → (((options.delete_database_data && not options.remove_database) ≡ true)
          × (remove_runtime cleaner n options w db ≡ (refused requires_database_removal, w, db)))
        ⊎ ((e : ServiceError) × ((tear_down_apps cleaner n w db).0 ≡ refused e)
            × ((remove_runtime cleaner n options w db).0 ≡ refused e)
            × ((remove_runtime cleaner n options w db).2 ≡ db))
        ⊎ (((tear_down_apps cleaner n w db).0 ≡ done tt)
            × IsDown n db (remove_runtime cleaner n options w db).2
            × KeepsWorkflows db (remove_runtime cleaner n options w db).2
            × ((remove_runtime cleaner n options w db).0
                ≡ (tear_down_database cleaner n options
                    (tear_down_apps cleaner n w db).1
                    (remove_runtime cleaner n options w db).2).0))
  unfolding remove_runtime refuse
  remove_runtime-cases n options w db =
      elim (Bool-cases (options.delete_database_data && not options.remove_database)) [
        | inl e ↦ inl (e, rw e refl)
        | inr e ↦ rw e (
            inr (elim (Answer-cases (tear_down_apps cleaner n w db).0) [
              | inr (f, h) ↦
                  let run =
                    bind-refused (tear_down_apps cleaner n) (λ _. change_then n options) w db h in
                  inl (
                    f,
                    h,
                    ap (λ x. x.0) run,
                    ap (λ x. x.2) run ∙ (tear_down_apps-IsQuiet cleaner n).same_db w db,
                  )
              | inl (t, h) ↦
                  let w1 = (tear_down_apps cleaner n w db).1 in
                  let (db1, cleared) = clear_total n db (tear_down_apps-exists n w db h) in
                  let run =
                    bind-done (tear_down_apps cleaner n) (λ _. change_then n options) w db h
                    ∙ ap (λ d. change_then n options w1 d)
                        ((tear_down_apps-IsQuiet cleaner n).same_db w db)
                    ∙ transact-then (clear_project_runtime_state n) _ w1 db cleared in
                  let kept =
                    ap (λ x. x.2) run
                    ∙ (tear_down_database-IsQuiet cleaner n options).same_db w1 db1 in
                  inr (
                    h,
                    rw kept (clear-IsDown n db cleared),
                    rw kept (clear-KeepsWorkflows n db cleared),
                    ap (λ x. x.0) run
                        ∙ ap (λ d. (tear_down_database cleaner n options w1 d).0) (sym kept),
                  )
            ]))
      ]
