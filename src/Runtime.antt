-- ===== src/Runtime.antt =====
-- What the project services ask of the container runtime, of the ingress and of the clock: the
-- interfaces of cmd/brain/cleanup.go, cmd/brain/reconcile.go and cmd/brain/project_runtime.go, over
-- the state of the world, and the steps of such a service.
pub mod Laws
use ovek.Common.{
  ℕ, String, Bool, true, false, Option, none, some, List, [], ◌∷◌, ◌==◌, if◌then◌else◌,
}
use ovek.Store.{Db, DeploymentRow, Failure}
use ovek.Store.Sql.{Result, ok, err}

-- What errdefs tells of an error of the runtime.
pub record RuntimeError : Type 0 where
  pub is_conflict : Bool
  pub is_internal : Bool
  pub is_unknown : Bool
  pub is_unavailable : Bool
  pub message : String

-- The error of a context that is done.
pub data ContextError : Type 0 where
  canceled deadline_exceeded : ContextError

-- deploymentRecord, less what the runtime does not read.
pub record DeploymentRecord : Type 0 where
  pub id : String
  pub project_name : String
  pub image_ref : String
  pub app_container_name : String
  pub network_name : String
  pub pocket_base_container_name : String
  pub created_at : String

pub record ProjectAppRuntime : Type 0 where
  pub deployment_id : String
  pub project_name : String
  pub app_container_name : String
  pub image_ref : String
  pub network_name : String
  pub pocket_base_container_name : String
  pub created_at : String
  pub running : Bool

-- projectAppRuntime.deploymentRecord
unfoldable pub deployment_record : ProjectAppRuntime → DeploymentRecord
deployment_record app = record {
  id = app.deployment_id;
  project_name = app.project_name;
  image_ref = app.image_ref;
  app_container_name = app.app_container_name;
  network_name = app.network_name;
  pocket_base_container_name = app.pocket_base_container_name;
  created_at = app.created_at;
}

-- scanDeploymentRecord
unfoldable pub scan_deployment_record : DeploymentRow → DeploymentRecord
scan_deployment_record row = record {
  id = row.id;
  project_name = row.project_name;
  image_ref = row.image_ref;
  app_container_name = row.app_container_name;
  network_name = row.network_name;
  pocket_base_container_name = row.pb_container_name;
  created_at = row.created_at;
}

pub data TeardownError : Type 0 where
  failed : RuntimeError → TeardownError
  -- the context was done while the teardown waited for its next attempt
  interrupted : ContextError → RuntimeError → TeardownError

pub data ServiceError : Type 0 where
  err_project_not_found : ServiceError
  err_project_runtime_not_found : ServiceError
  requires_database_removal : ServiceError
  runtime_failed : RuntimeError → ServiceError
  teardown_failed : TeardownError → ServiceError
  store_failed : Failure → ServiceError

-- A call that changes the world and may report an error.
abbrev pub Call : Type 0 → Type 0 → Type 0
Call E W = W → Option E × W

-- A call that changes the world and reports an error or a value.
pub data Answer {ℓ κ} (E : Type ℓ) (A : Type κ) : Type (ℓ ⊔ κ) where
  done : A → Answer E A
  refused : E → Answer E A

abbrev pub Flow : Type 0 → Type 0 → Type 0
Flow W A = W → Db → Answer ServiceError A × W × Db

module _ {W : Type 0} where
  infixl 5 ◌>>=◌
  unfoldable pub ◌>>=◌ : {A B : Type 0} → Flow W A → (A → Flow W B) → Flow W B
  (flow >>= rest) w db =
      let (answer, w', db') = flow w db in
      elim answer [ done value ↦ rest value w' db' | refused e ↦ (refused e, w', db') ]

  infixl 5 ◌>>◌
  abbrev pub ◌>>◌ : {B : Type 0} → Flow W (Unit {0}) → Flow W B → Flow W B
  flow >> rest = flow >>= λ _. rest

  unfoldable pub return : {A : Type 0} → A → Flow W A
  return value w db = (done value, w, db)

  unfoldable pub refuse : {A : Type 0} → ServiceError → Flow W A
  refuse e w db = (refused e, w, db)

  -- What a value that may be nil is for, and nothing without it.
  unfoldable pub if_present : {A : Type 0} → Option A → (A → Flow W (Unit {0})) → Flow W (Unit {0})
  if_present none use_it = return tt
  if_present (some x) use_it = use_it x

  -- A call of the world, with the error of the service that stands for its error.
  unfoldable pub call : {E : Type 0} → (E → ServiceError) → Call E W → Flow W (Unit {0})
  call describe action w db =
      let (error, w') = action w in
      elim error [ none ↦ (done tt, w', db) | some e ↦ (refused (describe e), w', db) ]

  -- A call whose error is only logged.
  unfoldable pub attempt : {E : Type 0} → Call E W → Flow W (Unit {0})
  attempt action w db = (done tt, (action w).1, db)

  -- A call that returns a value.
  unfoldable pub ask : {A : Type 0} → (W → Answer RuntimeError A × W) → Flow W A
  ask action w db =
      let (answer, w') = action w in
      elim answer [
        | done value ↦ (done value, w', db)
        | refused e ↦ (refused (runtime_failed e), w', db)
      ]

  -- A transaction, which an error rolls back.
  unfoldable pub transact : (Db → Result Db) → Flow W (Unit {0})
  transact change w db = elim (change db) [
    | ok db' ↦ (done tt, w, db')
    | err failure ↦ (refused (store_failed failure), w, db)
  ]
