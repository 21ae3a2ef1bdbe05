-- ===== src/ProjectRuntime/Status.antt =====
-- The status that a start, a stop or a restart of cmd/brain/project_runtime.go stores.
use ovek.Common.{◌≡◌, ◌∙◌, arith, ◌⊎◌, inl, inr, String, List}
use ovek.Store.{Db, ProjectStatus}
use ovek.Store.Sql.{count_where, update_where}
use ovek.Projects.Laws.{set_project_status-ok}
use ovek.Projects.{has_name, with_status, set_project_status}
use ovek.Runtime.{
  ServiceError, Answer, refused, DeploymentRecord, ProjectAppRuntime, Flow, ◌>>=◌, return, refuse,
}
use ovek.Runtime.Laws.{
  IsQuiet, bind-IsQuiet, call-IsQuiet, ask-IsQuiet, return-IsQuiet, if_present-IsQuiet,
  transact-cases, quiet-cases,
}
use ovek.ProjectRuntime.{
  RuntimeService, get_project, app_of_view, get_runtime, current_deployment, stop_app, start_app,
  settle, stop_runtime, start_runtime, restart_runtime,
}

-- The answer is an error and the database is as it was, or the one row of the project has the
-- status and nothing else has changed.
abbrev pub IsStatusChange :
    {A : Type 0} → String → ProjectStatus → Db → Answer ServiceError A → Db → Type 0
IsStatusChange n status db answer db' =
    ((e : ServiceError) × (answer ≡ refused e) × (db' ≡ db))
    ⊎ ((count_where (has_name n) db.projects ≡ 1)
        × (db'
            ≡ record db { projects = update_where (has_name n) (with_status status) db.projects }))

module _ {W : Type 0} (service : RuntimeService W) where
  get_project-IsQuiet : (n : String) → IsQuiet (get_project {W = W} n)
  unfolding get_project return refuse
  get_project-IsQuiet n = record { same_db = λ w db. ground arith }

  app_of_view-IsQuiet :
      (n : String) (apps : List ProjectAppRuntime) → IsQuiet (app_of_view service n apps)
  unfolding app_of_view return
  app_of_view-IsQuiet n apps = record { same_db = λ w db. ground arith }

  get_runtime-IsQuiet : (n : String) → IsQuiet (get_runtime service n)
  unfolding get_runtime
  get_runtime-IsQuiet n = bind-IsQuiet (get_project-IsQuiet n) (λ p.
      bind-IsQuiet (ask-IsQuiet _) (λ apps. bind-IsQuiet (app_of_view-IsQuiet n apps) (λ app.
        bind-IsQuiet (ask-IsQuiet _)
          (λ pb. bind-IsQuiet (ask-IsQuiet _) (λ network. return-IsQuiet _)))))

  current-IsQuiet : (n : String) → IsQuiet (current_deployment service n)
  unfolding current_deployment return refuse
  current-IsQuiet n = record { same_db = λ w db. ground arith }

  stop_app-IsQuiet : (n : String) (d : DeploymentRecord) → IsQuiet (stop_app service n d)
  unfolding stop_app
  stop_app-IsQuiet n d =
      bind-IsQuiet (call-IsQuiet _ _)
        (λ _. if_present-IsQuiet service.remove_project_ingress (λ f. call-IsQuiet _ _))

  start_app-IsQuiet : (n : String) (d : DeploymentRecord) → IsQuiet (start_app service n d)
  unfolding start_app
  start_app-IsQuiet n d = bind-IsQuiet (call-IsQuiet _ _) (λ _.
      bind-IsQuiet (call-IsQuiet _ _)
        (λ _. if_present-IsQuiet service.sync_project_ingress (λ f. call-IsQuiet _ _)))

  -- A flow that changes the status, or fails, wherever it begins.
  abbrev Changes : {A : Type 0} → String → ProjectStatus → Flow W A → Type 0
  Changes n s flow = (w : W) (db : Db) → IsStatusChange n s db (flow w db).0 (flow w db).2

  settle-Changes : (n : String) (s : ProjectStatus) → Changes n s (settle service n s)
  unfolding settle
  settle-Changes n s w db =
      elim (transact-cases (set_project_status n s) (get_runtime service n) w db
        (get_runtime-IsQuiet n)) [
          | inl kept ↦ inl kept
          | inr (db', set, left) ↦
              let (one, changed) = set_project_status-ok n s db set in inr (one, left ∙ changed)
        ]

  bind-Changes :
      {A B : Type 0} (n : String) (s : ProjectStatus) (flow : Flow W A) (rest : A → Flow W B)
      → IsQuiet flow
      → ((a : A) → Changes n s (rest a))
      → Changes n s (flow >>= rest)
  bind-Changes n s flow rest quiet each w db = elim (quiet-cases flow rest w db quiet) [
    | inl kept ↦ inl kept
    | inr (a, w', first, run) ↦ rw run (each a w' db)
  ]

  -- A stop, a start and a restart fail and leave the database, or store the status, stopped after a
  -- stop and running after the others, in the one row of the project and change nothing else.
  pub operations-IsStatusChange :
      (n : String) (w : W) (db : Db)
      → IsStatusChange n ProjectStatus.stopped db
          (stop_runtime service n w db).0
          (stop_runtime service n w db).2
        × IsStatusChange n ProjectStatus.running db
            (start_runtime service n w db).0
            (start_runtime service n w db).2
        × IsStatusChange n ProjectStatus.running db
            (restart_runtime service n w db).0
            (restart_runtime service n w db).2
  unfolding stop_runtime start_runtime restart_runtime
  operations-IsStatusChange n w db = (
    bind-Changes n _ (current_deployment service n) _ (current-IsQuiet n)
        (λ d.
          bind-Changes n _ (stop_app service n d) _ (stop_app-IsQuiet n d)
            (λ _. settle-Changes n _))
        w db,
    bind-Changes n _ (current_deployment service n) _ (current-IsQuiet n)
        (λ d.
          bind-Changes n _ (start_app service n d) _ (start_app-IsQuiet n d)
            (λ _. settle-Changes n _))
        w db,
    bind-Changes n _ (current_deployment service n) _ (current-IsQuiet n)
        (λ d. bind-Changes n _ (stop_app service n d) _ (stop_app-IsQuiet n d) (λ _.
          bind-Changes n _ (start_app service n d) _ (start_app-IsQuiet n d)
            (λ _. settle-Changes n _)))
        w db,
  )
