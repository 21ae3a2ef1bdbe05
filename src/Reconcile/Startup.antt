-- ===== src/Reconcile/Startup.antt =====
-- What the reconciliation of a project leaves in its rows: reconcileProject of
-- cmd/brain/reconcile.go.
use mathlib.Core.Option.{some-injective}
use ovek.Common.{
  ◌≡◌, refl, sym, ap, subst, ◌∙◌, ◌⊎◌, inl, inr, String, Option, none, some, List, [], ◌∷◌, Memᴰ,
  ◌==◌, Bool-cases, Option-cases, eq_iff,
}
use ovek.Store.{Db, DeploymentRow}
use ovek.Store.Sql.{ok, bind-ok}
use ovek.Worker.{get_project_current_deployment}
use ovek.Runtime.{ProjectAppRuntime, done, return}
use ovek.Runtime.Laws.{
  IsQuiet, Answer-cases, bind-IsQuiet, call-IsQuiet, return-IsQuiet, if-IsQuiet, transact-cases,
  ask-then, ask-stop,
}
use ovek.Reconcile.{
  ReconcilerRuntime, filter_running_project_apps, find_project_app_by_deployment_id,
  normalize_project_current_deployment, promote_project_app_runtime, upsert_deployment,
  remove_other_project_apps, adopt_running, reconcile_apps, reconcile_project,
}
use ovek.Reconcile.Settled.{IsSettled, make_current-IsSettled}

pub promote-IsSettled :
    (app : ProjectAppRuntime) (db : Db) {db' : Db}
    → promote_project_app_runtime app db ≡ ok db'
    → IsSettled app.project_name app.deployment_id db'
unfolding promote_project_app_runtime
promote-IsSettled app db h =
    let (db1, upserted, made) = bind-ok (upsert_deployment app db) _ h in
    make_current-IsSettled app.project_name app.deployment_id db1 made

found_app :
    (apps : List ProjectAppRuntime) (i : String) {app : ProjectAppRuntime}
    → find_project_app_by_deployment_id apps i ≡ some app
    → Memᴰ app apps × (app.deployment_id ≡ i)
unfolding find_project_app_by_deployment_id
found_app [] i h = cc
found_app (a ∷ apps) i {app} h = elim (Bool-cases (a.deployment_id == i)) [
  | inl e ↦
      let same = some-injective _ _ (rw e at h) in
      (
        Memᴰ.head (sym same),
        ap (λ (x : ProjectAppRuntime). x.deployment_id) (sym same) ∙ (eq_iff _ _).0 e,
      )
  | inr e ↦ let (m, same) = found_app apps i (rw (e) at h) in (Memᴰ.tail m, same)
]

module _ {W : Type 0} (runtime : ReconcilerRuntime W) where
  pub remove_others-IsQuiet :
      (apps : List ProjectAppRuntime) (i : String)
      → IsQuiet (remove_other_project_apps runtime apps i)
  unfolding remove_other_project_apps
  remove_others-IsQuiet [] i = return-IsQuiet tt
  remove_others-IsQuiet (app ∷ apps) i =
      if-IsQuiet (app.deployment_id == i) (remove_others-IsQuiet apps i)
        (bind-IsQuiet (call-IsQuiet _ _) (λ _. remove_others-IsQuiet apps i))

  -- The database is as it was, or a running app is the project's only deployment that succeeded.
  abbrev pub IsReconciled : List ProjectAppRuntime → Db → Db → Type 0
  IsReconciled apps db db' =
      (db' ≡ db)
      ⊎ ((project_name : String) × (app : ProjectAppRuntime) × Memᴰ app
            (filter_running_project_apps apps)
          × IsSettled project_name app.deployment_id db')

  adopt-IsReconciled :
      (apps running : List ProjectAppRuntime) (w : W) (db : Db)
      → running ≡ filter_running_project_apps apps
      → IsReconciled apps db (adopt_running runtime apps running w db).2
  unfolding adopt_running return
  adopt-IsReconciled apps [] w db same = inl refl
  adopt-IsReconciled apps (app ∷ []) w db same =
      elim (transact-cases (promote_project_app_runtime app) _ w db
        (remove_others-IsQuiet apps app.deployment_id)) [
          | inl (f, answer, kept) ↦ inl kept
          | inr (db', promoted, left) ↦ inr (
            app.project_name,
            app,
            subst (λ l. Memᴰ app l) same (Memᴰ.head refl),
            rw left (promote-IsSettled app db promoted),
          )
        ]
  adopt-IsReconciled apps (app ∷ other ∷ more) w db same = inl refl

  apps-IsReconciled :
      (current : Option DeploymentRow) (apps : List ProjectAppRuntime) (w : W) (db : Db)
      → IsReconciled apps db (reconcile_apps runtime current apps w db).2
  unfolding reconcile_apps normalize_project_current_deployment
  apps-IsReconciled none apps w db = adopt-IsReconciled apps _ w db refl
  apps-IsReconciled (some d) apps w db =
      elim (Option-cases
        (find_project_app_by_deployment_id (filter_running_project_apps apps) d.id)) [
          | inl e ↦ rw (e, reconcile_apps) (adopt-IsReconciled apps _ w db refl)
          | inr (app, e) ↦
              let (listed, same) = found_app (filter_running_project_apps apps) d.id e in
              rw (e, reconcile_apps)
                (elim (transact-cases (normalize_project_current_deployment d) _ w db
                  (remove_others-IsQuiet apps d.id)) [
                    | inl (f, answer, kept) ↦ inl kept
                    | inr (db', made, left) ↦ inr (
                      d.project_name,
                      app,
                      listed,
                      rw left (
                          subst (λ i. IsSettled d.project_name i db') (sym same)
                            (make_current-IsSettled d.project_name d.id db made)),
                    )
                  ])
        ]

  -- A reconciliation of a project leaves the database as it was, or the deployment of an app that
  -- the runtime lists as running is the current deployment of its project, and the only one of that
  -- project that is stored as succeeded.
  pub reconcile_project-IsReconciled :
      (n : String) (w : W) (db : Db)
      → ((reconcile_project runtime n w db).2 ≡ db)
        ⊎ ((apps : List ProjectAppRuntime) × ((runtime.list_project_apps n w).0 ≡ done apps)
            × (project_name : String) × (app : ProjectAppRuntime) × Memᴰ app
                (filter_running_project_apps apps)
            × IsSettled project_name app.deployment_id (reconcile_project runtime n w db).2)
  unfolding reconcile_project
  reconcile_project-IsReconciled n w db = elim (Answer-cases (runtime.list_project_apps n w).0) [
    | inr (e, h) ↦ inl (ap (λ x. x.2) (ask-stop (runtime.list_project_apps n) _ w db h))
    | inl (apps, h) ↦
        let run =
          ask-then (runtime.list_project_apps n)
            (λ apps. reconcile_apps runtime (get_project_current_deployment n db) apps) w db h in
        (elim (apps-IsReconciled (get_project_current_deployment n db) apps _ db) [
          | inl kept ↦ inl (ap (λ x. x.2) run ∙ kept)
          | inr (p, app, listed, settled) ↦ inr (
            apps,
            h,
            p,
            app,
            listed,
            subst (λ d. IsSettled p app.deployment_id d) (sym (ap (λ x. x.2) run)) settled,
          )
        ])
  ]
