-- ===== src/Reconcile/Settled.antt =====
-- The rows of a project after makeCurrent's statements of cmd/brain/reconcile.go.
use ovek.Common.{
  subst, ◌≡◌, refl, sym, ap, ◌∙◌, arith, String, Bool, false, ◌&&◌, Option, none, some, List, ◌==◌,
  eq_refl, if◌then◌else◌, inl, inr,
}
use ovek.Store.{
  Db, ProjectRow, ProjectStatus, DeploymentRow, DeploymentStatus, deployment_status_eq,
}
use ovek.Store.Sql.{ok, Result-cases, bind-ok, count_where, update_where, update_row, ok_inj}
use ovek.Store.Laws.{update_row-ok, update_row_total, count-update}
use ovek.Store.Rows.{count-ext}
use ovek.Store.Changes.{count-update_changed}
use ovek.Projects.{has_name, with_status}
use ovek.Projects.Laws.{sync_total}
use ovek.Worker.{with_deployment_status, with_current, set_project_current_deployment}
use ovek.Lifecycle.Promotion.{set_current-ok}
use ovek.Cleanup.Listing.{is_succeeded_in}
use ovek.Reconcile.{
  is_deployment_of, is_other_succeeded, set_deployment_status, supersede_other_project_deployments,
  make_current,
}

abbrev pub is_id : String → Option String → Bool
is_id deployment_id none = false
is_id deployment_id (some other) = other == deployment_id

abbrev pub has_current_id : String → String → ProjectRow → Bool
has_current_id project_name deployment_id p =
    has_name project_name p && is_id deployment_id p.current_deployment_id

abbrev pub is_settled_row : String → String → DeploymentRow → Bool
is_settled_row project_name deployment_id d =
    is_deployment_of project_name deployment_id d
    && deployment_status_eq d.status DeploymentStatus.succeeded

-- The project has that current deployment, which is the only one of the project that succeeded.
pub record IsSettled (project_name deployment_id : String) (db : Db) : Type 0 where
  pub one_project : count_where (has_name project_name) db.projects ≡ 1
  pub current : count_where (has_current_id project_name deployment_id) db.projects ≡ 1
  pub one_succeeded : count_where (is_succeeded_in project_name) db.deployments ≡ 1
  pub succeeded : count_where (is_settled_row project_name deployment_id) db.deployments ≡ 1

set_status-ok :
    (n i : String) (s : DeploymentStatus) (db : Db) {db' : Db}
    → set_deployment_status n i s db ≡ ok db'
    → (count_where (is_deployment_of n i) db.deployments ≡ 1)
      × (db' ≡ record db {
        deployments = update_where (is_deployment_of n i) (with_deployment_status s) db.deployments;
      })
unfolding set_deployment_status
set_status-ok n i s db h =
    elim (Result-cases
      (update_row (is_deployment_of n i) (with_deployment_status s) db.deployments)) [
        | inl (e, refused) ↦ cc (rw (refused, set_deployment_status) at h)
        | inr (rows, updated) ↦
            let (one, result) = update_row-ok _ _ _ updated in
            (
              one,
              sym (ok_inj _ _ (rw (updated, set_deployment_status) at h))
                  ∙ ap (λ d. record db { deployments = d }) result,
            )
      ]

-- One succeeded deployment is left.
abbrev pub settled_rows : String → String → List DeploymentRow → List DeploymentRow
settled_rows n i xs =
    update_where (is_other_succeeded n i) (with_deployment_status DeploymentStatus.superseded)
      (update_where (is_deployment_of n i) (with_deployment_status DeploymentStatus.succeeded) xs)

-- What the two updates make of one row.
abbrev settled_row : String → String → DeploymentRow → DeploymentRow
settled_row n i d =
    let first =
      if is_deployment_of n i d then with_deployment_status DeploymentStatus.succeeded d else d in
    if is_other_succeeded n i first
    then with_deployment_status DeploymentStatus.superseded first
    else first

settled_row-succeeded :
    (n i : String) (d : DeploymentRow)
    → is_succeeded_in n (settled_row n i d) ≡ is_deployment_of n i d
unfolding deployment_status_eq
settled_row-succeeded n i d = ground arith

settled_row-settled :
    (n i : String) (d : DeploymentRow)
    → is_settled_row n i (settled_row n i d) ≡ is_deployment_of n i d
unfolding deployment_status_eq
settled_row-settled n i d = ground arith

settled-count :
    (q : DeploymentRow → Bool) (n i : String) (xs : List DeploymentRow)
    → ((d : DeploymentRow) → q (settled_row n i d) ≡ is_deployment_of n i d)
    → count_where q (settled_rows n i xs) ≡ count_where (is_deployment_of n i) xs
settled-count q n i xs same =
    count-update_changed q _ _ _
    ∙ count-update_changed _ (is_deployment_of n i) _ xs
    ∙ count-ext _ _ xs same

current_rows :
    (n i : String) (s : ProjectStatus) (xs : List ProjectRow)
    → count_where (has_current_id n i) (
        update_where
          (has_name n)
          (with_status s)
          (update_where (has_name n) (with_current (some i)) xs))
      ≡ count_where (has_name n) xs
current_rows n i s xs =
    count-update (has_current_id n i) (has_name n) (with_status s) _ (λ p _ _. refl)
    ∙ count-update_changed (has_current_id n i) (has_name n) (with_current (some i)) xs
    ∙ count-ext _ _ xs (λ p. ground (arith, eq_refl i))

-- Before the last statement and its sync.
abbrev pub settled_db : String → String → Db → Db
settled_db n i db = record db { deployments = settled_rows n i db.deployments }

pub make_current-set :
    (n i : String) (db : Db) {db' : Db}
    → make_current n i db ≡ ok db'
    → (count_where (is_deployment_of n i) db.deployments ≡ 1)
      × (set_project_current_deployment n i (settled_db n i db) ≡ ok db')
unfolding make_current supersede_other_project_deployments
make_current-set n i db {db'} h =
    let (db1, set, made) = bind-ok (set_deployment_status n i DeploymentStatus.succeeded db) _ h in
    let (one, same) = set_status-ok n i DeploymentStatus.succeeded db set in
    (
      one,
      subst
          (λ (d : Db).
            set_project_current_deployment n i (supersede_other_project_deployments n i d) ≡ ok db')
          same made,
    )

pub make_current-IsSettled :
    (n i : String) (db : Db) {db' : Db} → make_current n i db ≡ ok db' → IsSettled n i db'
make_current-IsSettled n i db h =
    let (one, made) = make_current-set n i db h in
    let synced = set_current-ok n i (settled_db n i db) made in
    let names = count-update (has_name n) (has_name n) _ _ (λ p _ _. refl) in
    let listed =
      sym
        (count-update (has_name n) (has_name n) (with_current (some i)) db.projects (λ p _ _. refl))
      ∙ synced.one in
    rw synced.result (record {
      one_project = names ∙ synced.one;
      current = current_rows n i _ db.projects ∙ listed;
      one_succeeded =
          settled-count (is_succeeded_in n) n i db.deployments (settled_row-succeeded n i) ∙ one;
      succeeded =
          settled-count (is_settled_row n i) n i db.deployments (settled_row-settled n i) ∙ one;
    })

set_status_total :
    (n i : String) (s : DeploymentStatus) (db : Db)
    → count_where (is_deployment_of n i) db.deployments ≡ 1
    → set_deployment_status n i s db
      ≡ ok (record db {
        deployments = update_where (is_deployment_of n i) (with_deployment_status s) db.deployments;
      })
unfolding set_deployment_status
set_status_total n i s db one =
    rw
      (
        update_row_total (is_deployment_of n i) (with_deployment_status s) db.deployments one,
        set_deployment_status,
      )
      refl

set_current_total :
    (n i : String) (db : Db)
    → count_where (has_name n) db.projects ≡ 1
    → (db' : Db) × (set_project_current_deployment n i db ≡ ok db')
unfolding set_project_current_deployment
set_current_total n i db there =
    let names =
      count-update (has_name n) (has_name n) (with_current (some i)) db.projects (λ p _ _. refl) in
    let (db', synced) =
      sync_total n
        (record db { projects = update_where (has_name n) (with_current (some i)) db.projects })
        (names ∙ there) in
    (
      db',
      rw
          (
            update_row_total (has_name n) (with_current (some i)) db.projects there,
            set_project_current_deployment,
          )
          synced,
    )

pub make_current_total :
    (n i : String) (db : Db)
    → count_where (is_deployment_of n i) db.deployments ≡ 1
    → count_where (has_name n) db.projects ≡ 1
    → (db' : Db) × (make_current n i db ≡ ok db')
unfolding make_current supersede_other_project_deployments
make_current_total n i db deployed there =
    let (db', set) = set_current_total n i (settled_db n i db) there in
    (db', rw (set_status_total n i DeploymentStatus.succeeded db deployed, make_current) set)
