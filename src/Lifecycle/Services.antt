-- ===== src/Lifecycle/Services.antt =====
-- The transactions of cmd/brain/cleanup.go and cmd/brain/reconcile.go keep jobs as they are and the
-- tables well-formed.
use ovek.Common.{◌≡◌, refl, sym, ap, ◌∙◌, String, Option, none, some, Bool-cases, inl, inr}
use ovek.Store.{Db, DeploymentRow}
use ovek.Store.Sql.{ok, bind-ok, ok_inj, exists_where, update_where, select_row}
use ovek.Projects.{has_name, sync_project_status}
use ovek.Projects.Laws.{Synced, sync-Synced}
use ovek.Projects.Frames.{row_status-same_jobs, sync-IsSynced}
use ovek.Worker.{is_deployment, with_current}
use ovek.Runtime.{ProjectAppRuntime}
use ovek.Cleanup.Listing.{clear_project_runtime_state}
use ovek.Reconcile.{
  make_current, normalize_project_current_deployment, upsert_deployment,
  promote_project_app_runtime, adopted_deployment,
}
use ovek.Reconcile.Settled.{settled_db, make_current-set}
use ovek.Lifecycle.{IsKeyed, IsWellFormed}
use ovek.Lifecycle.Keys.{Synced-IsKeyed}
use ovek.Lifecycle.Promotion.{set_current-ok, insert_deployment-ok}
use ovek.Lifecycle.Relinked.{resynced-IsKeyed, resynced-IsWellFormed}

-- A transaction that keeps the jobs, and the tables keyed and well-formed if they were.
pub record IsService (db db' : Db) : Type 0 where
  pub same_jobs : db'.jobs ≡ db.jobs
  pub keeps_keys : IsKeyed db.jobs db.projects → IsKeyed db'.jobs db'.projects
  pub keeps_form : IsWellFormed db → IsWellFormed db'

resynced-IsService :
    (n : String) (c : Option String) (db dbm : Db) {db' : Db}
    → dbm.jobs ≡ db.jobs
    → dbm.projects ≡ update_where (has_name n) (with_current c) db.projects
    → Synced n dbm db'
    → IsService db db'
resynced-IsService n c db dbm jobs projects synced = record {
  same_jobs = ap (λ (d : Db). d.jobs) synced.result ∙ jobs;
  keeps_keys = resynced-IsKeyed n (with_current c) (λ p. refl) db dbm jobs projects synced;
  keeps_form = resynced-IsWellFormed n (with_current c) (λ p. refl) db dbm jobs projects synced;
}

-- syncProjectStatus, of which reconcileAllProjectStatuses is a sequence.
pub sync-IsService :
    (n : String) (db : Db) {db' : Db} → sync_project_status n db ≡ ok db' → IsService db db'
sync-IsService n db {db'} h =
    let synced = sync-Synced n db h in
    record {
      same_jobs = ap (λ (d : Db). d.jobs) synced.result;
      keeps_keys = Synced-IsKeyed n db db' synced;
      keeps_form = λ well. record {
        keyed = Synced-IsKeyed n db db' synced well.keyed;
        synced = sync-IsSynced n db db' synced (λ m other. well.synced m);
      };
    }

pub clear-IsService :
    (n : String) (db : Db) {db' : Db} → clear_project_runtime_state n db ≡ ok db' → IsService db db'
unfolding clear_project_runtime_state
clear-IsService n db h = resynced-IsService n none db _ refl refl (sync-Synced n _ h)

make_current-IsService :
    (n i : String) (db : Db) {db' : Db} → make_current n i db ≡ ok db' → IsService db db'
make_current-IsService n i db h =
    let (one, made) = make_current-set n i db h in
    resynced-IsService n (some i) db _ refl refl (set_current-ok n i (settled_db n i db) made)

pub normalize-IsService :
    (d : DeploymentRow) (db : Db) {db' : Db}
    → normalize_project_current_deployment d db ≡ ok db'
    → IsService db db'
unfolding normalize_project_current_deployment
normalize-IsService d db h = make_current-IsService d.project_name d.id db h

-- The tables of jobs and projects are the same.
pub same-IsService :
    (db db' : Db) → db'.jobs ≡ db.jobs → db'.projects ≡ db.projects → IsService db db'
same-IsService db db' jobs projects = record {
  same_jobs = jobs;
  keeps_keys = λ keyed. rw (jobs, projects) keyed;
  keeps_form = λ well. record {
    keyed = rw (jobs, projects) well.keyed;
    synced = λ n p found.
        well.synced n p (sym (ap (λ ps. select_row (has_name n) ps) projects) ∙ found)
        ∙ sym (row_status-same_jobs db db' p jobs);
  };
}

both-IsService : (db db1 db2 : Db) → IsService db db1 → IsService db1 db2 → IsService db db2
both-IsService db db1 db2 first second = record {
  same_jobs = second.same_jobs ∙ first.same_jobs;
  keeps_keys = λ keyed. second.keeps_keys (first.keeps_keys keyed);
  keeps_form = λ well. second.keeps_form (first.keeps_form well);
}

upsert-IsService :
    (app : ProjectAppRuntime) (db : Db) {db' : Db}
    → upsert_deployment app db ≡ ok db'
    → IsService db db'
unfolding upsert_deployment
upsert-IsService app db {db'} h =
    elim (Bool-cases (exists_where (is_deployment app.deployment_id) db.deployments)) [
      | inl e ↦
          let same = sym (ok_inj _ db' (rw e at h)) in
          same-IsService db db' (ap (λ (d : Db). d.jobs) same) (ap (λ (d : Db). d.projects) same)
      | inr e ↦
          let same = (insert_deployment-ok (adopted_deployment app) db (rw e at h)).1 in
          same-IsService db db' (ap (λ (d : Db). d.jobs) same) (ap (λ (d : Db). d.projects) same)
    ]

pub promote-IsService :
    (app : ProjectAppRuntime) (db : Db) {db' : Db}
    → promote_project_app_runtime app db ≡ ok db'
    → IsService db db'
unfolding promote_project_app_runtime
promote-IsService app db {db'} h =
    let (db1, upserted, made) = bind-ok (upsert_deployment app db) _ h in
    both-IsService db db1 db' (upsert-IsService app db upserted)
      (make_current-IsService app.project_name app.deployment_id db1 made)
