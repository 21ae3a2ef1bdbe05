-- ===== src/Reconcile/Adoption.antt =====
-- The adoption of a running app whose deployment is not in the database:
-- promoteProjectAppRuntime and reconcileProject of cmd/brain/reconcile.go.
use ovek.Common.{
  ℕ, ◌+◌, ◌≡◌, refl, ap, ◌∙◌, arith, String, Bool, true, ◌&&◌, none, List, [], ◌∷◌, ◌++◌, ◌==◌,
  if◌then◌else◌, eq_refl,
}
use ovek.Store.{Db}
use ovek.Store.Sql.{ok, count_where}
use ovek.Store.Rows.{count-snoc, exists_where_of_zero, exists_where_of_count}
use ovek.Store.Changes.{count_zero_of}
use ovek.Projects.{has_name}
use ovek.Worker.{is_deployment, insert_deployment, get_project_current_deployment}
use ovek.Runtime.{ProjectAppRuntime, done}
use ovek.Runtime.Laws.{transact-then, ask-then}
use ovek.Reconcile.{
  ReconcilerRuntime, is_deployment_of, upsert_deployment, adopted_deployment,
  promote_project_app_runtime, filter_running_project_apps, adopt_running,
  remove_other_project_apps, reconcile_apps, reconcile_project,
}
use ovek.Reconcile.Settled.{IsSettled, make_current_total}
use ovek.Reconcile.Startup.{remove_others-IsQuiet, promote-IsSettled}

abbrev with_adopted : ProjectAppRuntime → Db → Db
with_adopted app db = record db { deployments = db.deployments ++ adopted_deployment app ∷ [] }

upsert_new :
    (app : ProjectAppRuntime) (db : Db)
    → count_where (is_deployment app.deployment_id) db.deployments ≡ 0
    → count_where (has_name app.project_name) db.projects ≡ 1
    → upsert_deployment app db ≡ ok (with_adopted app db)
unfolding upsert_deployment insert_deployment
upsert_new app db absent there =
    rw
      (
        exists_where_of_zero _ db.deployments absent,
        exists_where_of_count (has_name app.project_name) db.projects (omega (arith, there)),
      )
      refl

adopted-count :
    (app : ProjectAppRuntime) (db : Db)
    → count_where (is_deployment app.deployment_id) db.deployments ≡ 0
    → count_where
        (is_deployment_of app.project_name app.deployment_id)
        (with_adopted app db).deployments
      ≡ 1
adopted-count app db absent =
    count-snoc (is_deployment_of app.project_name app.deployment_id) db.deployments
      (adopted_deployment app)
    ∙ one_more (
        count_zero_of (is_deployment_of app.project_name app.deployment_id)
          (is_deployment app.deployment_id) db.deployments (λ d. both _ _) absent)
  where
    both : (a b : Bool) → (a && b) ≡ true → a ≡ true
    both a b h = ground arith

    one_more :
        {m : ℕ}
        → m ≡ 0
        → m
            + (if app.deployment_id == app.deployment_id && app.project_name == app.project_name
                then 1
                else 0)
          ≡ 1
    one_more e = ground (arith, eq_refl app.deployment_id, eq_refl app.project_name)

promote_new :
    (app : ProjectAppRuntime) (db : Db)
    → count_where (is_deployment app.deployment_id) db.deployments ≡ 0
    → count_where (has_name app.project_name) db.projects ≡ 1
    → (db' : Db) × (promote_project_app_runtime app db ≡ ok db')
unfolding promote_project_app_runtime
promote_new app db absent there =
    let (db', made) =
      make_current_total app.project_name app.deployment_id (with_adopted app db)
        (adopted-count app db absent) there in
    (db', rw (upsert_new app db absent there) made)

module _ {W : Type 0} (runtime : ReconcilerRuntime W) where
  adopt-one :
      (apps : List ProjectAppRuntime) (app : ProjectAppRuntime) (w : W) (db : Db)
      → count_where (is_deployment app.deployment_id) db.deployments ≡ 0
      → count_where (has_name app.project_name) db.projects ≡ 1
      → IsSettled app.project_name app.deployment_id (adopt_running runtime apps (app ∷ []) w db).2
  unfolding adopt_running
  adopt-one apps app w db absent there =
      let (db', promoted) = promote_new app db absent there in
      let left =
        ap (λ x. x.2)
          (transact-then (promote_project_app_runtime app)
            (remove_other_project_apps runtime apps app.deployment_id) w db promoted)
        ∙ (remove_others-IsQuiet runtime apps app.deployment_id).same_db w db' in
      rw left (promote-IsSettled app db promoted)

  -- When a project of the database has no current deployment and the runtime lists one running app
  -- of it, whose deployment the database does not have, the reconciliation stores that deployment,
  -- as the current one and the only one of the project that succeeded, whether or not it can remove
  -- the other apps.
  pub reconcile_project-adopted :
      (n : String) (w : W) (db : Db) (apps : List ProjectAppRuntime) (app : ProjectAppRuntime)
      → get_project_current_deployment n db ≡ none
      → (runtime.list_project_apps n w).0 ≡ done apps
      → filter_running_project_apps apps ≡ app ∷ []
      → count_where (is_deployment app.deployment_id) db.deployments ≡ 0
      → count_where (has_name app.project_name) db.projects ≡ 1
      → IsSettled app.project_name app.deployment_id (reconcile_project runtime n w db).2
  unfolding reconcile_project reconcile_apps
  reconcile_project-adopted n w db apps app no_current listed one_running absent there =
      let run =
        ask-then (runtime.list_project_apps n)
          (λ apps. reconcile_apps runtime (get_project_current_deployment n db) apps) w db listed in
      rw (run, no_current, one_running) (adopt-one apps app _ db absent there)
