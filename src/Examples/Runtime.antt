-- ===== src/Examples/Runtime.antt =====
-- A world whose runtime refuses some calls, with services over it, and their theorems at it.
use mathlib.Core.List.{Memᴰ}
use ovek.Common.{
  ℕ, zero, suc, ◌≡◌, ◌↔◌, ◌⊎◌, ◌<◌, refl, String, Bool, true, false, not, ◌&&◌, Option, none, some,
  List, [], ◌∷◌, ◌++◌,
}
use ovek.Store.{Db, DeploymentStatus, ProjectStatus}
use ovek.Store.Sql.{select_row, count_where}
use ovek.Worker.{get_project_current_deployment}
use ovek.Runtime.{
  RuntimeError, ContextError, Call, Answer, done, refused, ServiceError, ProjectAppRuntime,
  requires_database_removal,
}
use ovek.Cleanup.Retry.{retry_runtime_teardown}
use ovek.Cleanup.Pauses.{Retries, retry-succeeds_iff}
use ovek.Cleanup.Removal.{
  Cleaner, RuntimeRemovalOptions, tear_down_project, cleanup, tear_down_apps, tear_down_database,
  remove_runtime,
}
use ovek.Cleanup.Clearing.{IsDown, HasNoWorkflows, KeepsWorkflows}
use ovek.Cleanup.Outcome.{cleanup_all_or_nothing, remove_runtime-cases}
use ovek.Reconcile.{ReconcilerRuntime, filter_running_project_apps, reconcile_project}
use ovek.Reconcile.Settled.{IsSettled}
use ovek.Reconcile.Startup.{reconcile_project-IsReconciled}
use ovek.Reconcile.Adoption.{reconcile_project-adopted}
use ovek.ProjectRuntime.{RuntimeService, stop_runtime, start_runtime, restart_runtime}
use ovek.ProjectRuntime.Status.{IsStatusChange, operations-IsStatusChange}
use ovek.Examples.States.{empty_db}

-- The calls that the runtime still refuses, and those that it has done.
record World : Type 0 where
  conflicts : ℕ
  calls : List String

abbrev conflict : RuntimeError
conflict = record {
  is_conflict = true;
  is_internal = false;
  is_unknown = false;
  is_unavailable = false;
  message = "conflict";
}

abbrev busy_call : ℕ → String → World → Option RuntimeError × World
busy_call zero name w = (none, record w { calls = w.calls ++ name ∷ [] })
busy_call (suc n) name w = (some conflict, record w { conflicts = n })

abbrev try_call : String → Call RuntimeError World
try_call name w = busy_call w.conflicts name w

abbrev full_sleep : ℕ → Call ContextError World
full_sleep delay w = (none, w)

abbrev busy : ℕ → World
busy n = record { conflicts = n; calls = [] }

abbrev shop_app : Bool → ProjectAppRuntime
shop_app is_running = record {
  deployment_id = "job_1";
  project_name = "shop";
  app_container_name = "app-shop";
  image_ref = "shop:1";
  network_name = "net-shop";
  pocket_base_container_name = "pb-shop";
  created_at = "2024-01-01";
  running = is_running;
}

abbrev list_shop : String → World → Answer RuntimeError (List ProjectAppRuntime) × World
list_shop project_name w = (done (shop_app true ∷ []), w)

abbrev shop_db : Option String → Db
shop_db current = record empty_db {
  projects =
      record {
        name = "shop";
        status = ProjectStatus.idle;
        current_deployment_id = current;
        created_at = "2024-01-01";
      }
      ∷ [];
}

abbrev running_db : Db
running_db = record (shop_db (some "job_1")) {
  deployments =
      record {
        id = "job_1";
        project_name = "shop";
        image_ref = "shop:1";
        app_container_name = "app-shop";
        network_name = "net-shop";
        pb_container_name = "pb-shop";
        status = DeploymentStatus.succeeded;
        created_at = "2024-01-01";
        config_revision_id = none;
        source_type = some "repo";
        source_ref = none;
      }
      ∷ [];
}

abbrev cleaner : Cleaner World
cleaner = record {
  data_dir = "/data";
  projects_host_data_dir = "/projects";
  runtime = record {
    list_project_apps = list_shop;
    remove_project_app = λ d. try_call d.app_container_name;
    remove_project_workflow_containers = try_call;
    remove_project_pocket_base = try_call;
    remove_project_network = try_call;
  };
  cleanup_image = some try_call;
  remove_project_ingress = some try_call;
  sleep = full_sleep;
  remove = try_call;
  remove_all = try_call;
  abs = λ path. some path;
  rel = λ base path. some path;
  join = λ parts. "/data";
}

abbrev service : RuntimeService World
service = record {
  list_project_apps = list_shop;
  get_project_pocket_base_runtime = λ n w. (done none, w);
  get_project_network_runtime = λ n w. (done none, w);
  start_project_app = λ d. try_call d.app_container_name;
  stop_project_app = λ d. try_call d.app_container_name;
  wait_for_project_app_ready = λ id n. try_call id;
  remove_project_ingress = some try_call;
  sync_project_ingress = none;
}

abbrev reconciler : ReconcilerRuntime World
reconciler = record {
  list_project_apps = list_shop;
  remove_project_app = λ d. try_call d.app_container_name;
}

retry-succeeds_iff_example :
    (retry_runtime_teardown full_sleep (try_call "app-shop") (busy 2)
      ≡ (none, record { conflicts = 0; calls = "app-shop" ∷ [] }))
    ↔ ((k : ℕ) × (u : World) × (k < 5)
        × Retries full_sleep (try_call "app-shop") k 1 (busy 2) u
        × (try_call "app-shop" u ≡ (none, record { conflicts = 0; calls = "app-shop" ∷ [] })))
retry-succeeds_iff_example = retry-succeeds_iff full_sleep (try_call "app-shop") (busy 2) _

cleanup_all_or_nothing_example :
    (((tear_down_project cleaner "shop" (busy 1) running_db).0 ≡ done tt)
      × ((cleanup cleaner "shop" (busy 1) running_db).0 ≡ done tt)
      × IsDown "shop" running_db (cleanup cleaner "shop" (busy 1) running_db).2
      × HasNoWorkflows "shop" (cleanup cleaner "shop" (busy 1) running_db).2)
    ⊎ ((e : ServiceError) × ((tear_down_project cleaner "shop" (busy 1) running_db).0 ≡ refused e)
        × ((cleanup cleaner "shop" (busy 1) running_db).0 ≡ refused e)
        × ((cleanup cleaner "shop" (busy 1) running_db).2 ≡ running_db))
cleanup_all_or_nothing_example = cleanup_all_or_nothing cleaner "shop" (busy 1) running_db

abbrev keep_data : RuntimeRemovalOptions
keep_data = record { remove_database = true; delete_database_data = false }

remove_runtime-cases_example :
    (((keep_data.delete_database_data && not keep_data.remove_database) ≡ true)
      × (remove_runtime cleaner "shop" keep_data (busy 1) running_db
          ≡ (refused requires_database_removal, busy 1, running_db)))
    ⊎ ((e : ServiceError) × ((tear_down_apps cleaner "shop" (busy 1) running_db).0 ≡ refused e)
        × ((remove_runtime cleaner "shop" keep_data (busy 1) running_db).0 ≡ refused e)
        × ((remove_runtime cleaner "shop" keep_data (busy 1) running_db).2 ≡ running_db))
    ⊎ (((tear_down_apps cleaner "shop" (busy 1) running_db).0 ≡ done tt)
        × IsDown "shop" running_db (remove_runtime cleaner "shop" keep_data (busy 1) running_db).2
        × KeepsWorkflows running_db (remove_runtime cleaner "shop" keep_data (busy 1) running_db).2
        × ((remove_runtime cleaner "shop" keep_data (busy 1) running_db).0
            ≡ (tear_down_database cleaner "shop" keep_data
                (tear_down_apps cleaner "shop" (busy 1) running_db).1
                (remove_runtime cleaner "shop" keep_data (busy 1) running_db).2).0))
remove_runtime-cases_example = remove_runtime-cases cleaner "shop" keep_data (busy 1) running_db

reconcile_project-IsReconciled_example :
    ((reconcile_project reconciler "shop" (busy 0) running_db).2 ≡ running_db)
    ⊎ ((apps : List ProjectAppRuntime) × ((list_shop "shop" (busy 0)).0 ≡ done apps)
        × (project_name : String) × (app : ProjectAppRuntime) × Memᴰ app
            (filter_running_project_apps apps)
        × IsSettled project_name app.deployment_id
            (reconcile_project reconciler "shop" (busy 0) running_db).2)
reconcile_project-IsReconciled_example =
    reconcile_project-IsReconciled reconciler "shop" (busy 0) running_db

reconcile_project-adopted_example :
    IsSettled "shop" "job_1" (reconcile_project reconciler "shop" (busy 0) (shop_db none)).2
unfolding get_project_current_deployment select_row count_where filter_running_project_apps
reconcile_project-adopted_example =
    reconcile_project-adopted reconciler "shop" (busy 0) (shop_db none) (shop_app true ∷ [])
      (shop_app true) refl refl refl refl refl

operations-IsStatusChange_example :
    IsStatusChange "shop" ProjectStatus.stopped running_db
      (stop_runtime service "shop" (busy 0) running_db).0
      (stop_runtime service "shop" (busy 0) running_db).2
    × IsStatusChange "shop" ProjectStatus.running running_db
        (start_runtime service "shop" (busy 0) running_db).0
        (start_runtime service "shop" (busy 0) running_db).2
    × IsStatusChange "shop" ProjectStatus.running running_db
        (restart_runtime service "shop" (busy 0) running_db).0
        (restart_runtime service "shop" (busy 0) running_db).2
operations-IsStatusChange_example = operations-IsStatusChange service "shop" (busy 0) running_db
