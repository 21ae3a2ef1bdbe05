-- ===== src/Lifecycle/Relinked.antt =====
-- A change of one project's row, as cmd/brain/worker.go, cmd/brain/cleanup.go,
-- cmd/brain/reconcile.go and cmd/brain/project_status.go make it, and the other projects.
use ovek.Common.{
  ◌≡◌, ◌≢◌, sym, ap, ◌∙◌, String, Bool, false, some, Option-cases, inl, inr, if◌then◌else◌,
}
use mathlib.Core.Option.{some-injective}
use ovek.Store.{Db, ProjectRow}
use ovek.Store.Sql.{select_row, update_where}
use ovek.Store.Laws.{changed_option, select_row-update, select_row-holds}
use ovek.Projects.{has_name}
use ovek.Projects.Laws.{IsSyncedRow, Synced}
use ovek.Projects.Frames.{has_name-eq, ==-false, row_status-same_jobs, sync-IsSynced}
use ovek.Lifecycle.{IsKeyed, IsWellFormed}
use ovek.Lifecycle.Keys.{projects-IsKeyed, Synced-IsKeyed}

module _ (n : String) (f : ProjectRow → ProjectRow) (keeps : (p : ProjectRow) → (f p).name ≡ p.name)
    (db dbm : Db) (jobs : dbm.jobs ≡ db.jobs)
    (projects : dbm.projects ≡ update_where (has_name n) f db.projects) where
  row_was :
      (m : String)
      → select_row (has_name m) dbm.projects
        ≡ changed_option (has_name n) f (select_row (has_name m) db.projects)
  row_was m =
      ap (select_row (has_name m)) projects
      ∙ select_row-update (has_name m) (has_name n) f db.projects (λ x a. rw (keeps x))

  pub relinked-IsSyncedRow : (m : String) → m ≢ n → IsSyncedRow db m → IsSyncedRow dbm m
  relinked-IsSyncedRow m other synced p looked =
      elim (Option-cases (select_row (has_name m) db.projects)) [
        | inl e ↦ cc (looked, row_was m, e)
        | inr (q, e) ↦
            let elsewhere : has_name n q ≡ false = ==-false q.name n (λ s.
              other (sym (has_name-eq m q (select_row-holds (has_name m) db.projects q e)) ∙ s)) in
            let p_is : p ≡ q = some-injective _ _ (
              sym looked
              ∙ row_was m
              ∙ ap (changed_option (has_name n) f) e
              ∙ ap (λ (b : Bool). some (if b then f q else q)) elsewhere) in
            rw p_is (synced q e ∙ sym (row_status-same_jobs db dbm q jobs))
      ]

  relinked-IsKeyed : IsKeyed db.jobs db.projects → IsKeyed dbm.jobs dbm.projects
  relinked-IsKeyed keyed =
      rw (jobs, projects) (projects-IsKeyed db.jobs db.projects (has_name n) f keeps keyed)

  pub resynced-IsKeyed :
      {db' : Db} → Synced n dbm db' → IsKeyed db.jobs db.projects → IsKeyed db'.jobs db'.projects
  resynced-IsKeyed {db'} synced keyed = Synced-IsKeyed n dbm db' synced (relinked-IsKeyed keyed)

  -- The change and a sync of its project.
  pub resynced-IsWellFormed : {db' : Db} → Synced n dbm db' → IsWellFormed db → IsWellFormed db'
  resynced-IsWellFormed {db'} synced well = record {
    keyed = resynced-IsKeyed synced well.keyed;
    synced =
        sync-IsSynced n dbm db' synced (λ m other. relinked-IsSyncedRow m other (well.synced m));
  }
