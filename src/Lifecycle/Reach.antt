-- ===== src/Lifecycle/Reach.antt =====
-- What every sequence of the transactions of cmd/brain on jobs and projects keeps.
use ovek.Common.{
  ◌↔◌, ℕ, ◌≤◌, ◌<◌, ◌≡◌, refl, sym, ap, ◌∙◌, String, Bool, false, Option, some, arith, inl, inr,
  trim_space,
}
use ovek.Store.{Db, JobRow, ProjectRow, ProjectStatus, JobStatus, job_status_eq}
use ovek.Store.Sql.{select_row, count_where}
use ovek.Store.Laws.{select_row-holds}
use ovek.Projects.{is_active, is_active_of, has_name, row_status, status_of}
use ovek.Projects.Frames.{has_name-eq}
use ovek.Jobs.{has_id}
use ovek.Worker.{is_job_at, claimed, job_succeeded, interrupted_job_error_message, no_result}
use ovek.Lifecycle.{IsKeyed, IsWellFormed}
use ovek.Lifecycle.Create.{ensure_project-keys}
use ovek.Lifecycle.Ensured.{ensure_project-IsWellFormed}
use ovek.Lifecycle.Interrupted.{recover-keeps}
use ovek.Lifecycle.Services.{
  sync-IsService, clear-IsService, normalize-IsService, promote-IsService, same-IsService,
}
use ovek.Lifecycle.Statuses.{set_status-jobs, set_status-IsKeyed, set_status-IsWellFormed}
use ovek.Lifecycle.Created.{create-IsKeyed, create-IsWellFormed, create-keeps}
use ovek.Lifecycle.Steps.{
  claim-db, phase-db, claim-IsKeyed, phase-IsKeyed, failed-IsKeyed, claim-IsWellFormed,
  phase-IsWellFormed, failed-IsWellFormed,
}
use ovek.Lifecycle.Promotion.{succeeded-IsKeyed, succeeded-IsWellFormed, promotion-steps}
use ovek.Lifecycle.Transactions.{
  Step, create, claim, set_phase, fail, promote, recover, ensure, resync, clear, normalize, adopt,
  store_status, elsewhere, Reachable, here, step,
}
use ovek.Lifecycle.FinishedJobs.{
  update-finished, at_active, HasJob, failed-finished, same_jobs-finished,
}

Step-IsKeyed :
    (during_jobs : Bool) (db db' : Db)
    → Step during_jobs db db'
    → IsKeyed db.jobs db.projects
    → IsKeyed db'.jobs db'.projects
Step-IsKeyed d db db' (create id at n source_type source_ref job h) keyed =
    create-IsKeyed id at n source_type source_ref db keyed h
Step-IsKeyed d db db' (claim id at h) keyed = rw h (claim-IsKeyed id at db keyed)
Step-IsKeyed d db db' (set_phase id phase h) keyed = rw h (phase-IsKeyed id phase db keyed)
Step-IsKeyed d db db' (fail id finished_at message result h) keyed =
    failed-IsKeyed id finished_at message result db keyed h
Step-IsKeyed d db db' (promote job finished_at result row found same h) keyed =
    succeeded-IsKeyed job finished_at result db keyed h
Step-IsKeyed d db db' (recover finished_at h) keyed =
    recover-keeps (λ (x : Db). IsKeyed x.jobs x.projects) finished_at
      (λ id a b m k.
        failed-IsKeyed id (finished_at id) interrupted_job_error_message no_result a k m)
      db db' h keyed
Step-IsKeyed d db db' (ensure n at h) keyed = rw h (ensure_project-keys n at db keyed).2
Step-IsKeyed d db db' (resync n h) keyed = (sync-IsService n db h).keeps_keys keyed
Step-IsKeyed d db db' (clear n h) keyed = (clear-IsService n db h).keeps_keys keyed
Step-IsKeyed d db db' (normalize deployment h) keyed =
    (normalize-IsService deployment db h).keeps_keys keyed
Step-IsKeyed d db db' (adopt app h) keyed = (promote-IsService app db h).keeps_keys keyed
Step-IsKeyed d db db' (store_status n status up h calm) keyed =
    set_status-IsKeyed n status db h keyed
Step-IsKeyed d db db' (elsewhere jobs projects) keyed =
    (same-IsService db db' jobs projects).keeps_keys keyed

-- From keyed tables, in every sequence of the transactions that write jobs, projects or deployments,
-- stops and starts during a job among them, the ids of jobs and the names of projects stay unique,
-- every job has its project, and a project has one queued or running job at most.
pub Reachable-IsKeyed :
    (during_jobs : Bool) (db db' : Db)
    → IsKeyed db.jobs db.projects
    → Reachable during_jobs db db'
    → IsKeyed db'.jobs db'.projects
Reachable-IsKeyed d db db' keyed here = keyed
Reachable-IsKeyed d db db' keyed (step {db1} r s) =
    Step-IsKeyed d db1 db' s (Reachable-IsKeyed d db db1 keyed r)

Step-IsWellFormed : (db db' : Db) → Step false db db' → IsWellFormed db → IsWellFormed db'
Step-IsWellFormed db db' (create id at n source_type source_ref job h) well =
    create-IsWellFormed id at n source_type source_ref db well h
Step-IsWellFormed db db' (claim id at h) well = rw h (claim-IsWellFormed id at db well)
Step-IsWellFormed db db' (set_phase id phase h) well = rw h (phase-IsWellFormed id phase db well)
Step-IsWellFormed db db' (fail id finished_at message result h) well =
    failed-IsWellFormed id finished_at message result db well h
Step-IsWellFormed db db' (promote job finished_at result row found same h) well =
    succeeded-IsWellFormed job finished_at result db row well found same h
Step-IsWellFormed db db' (recover finished_at h) well =
    recover-keeps IsWellFormed finished_at
      (λ id a b m w.
        failed-IsWellFormed id (finished_at id) interrupted_job_error_message no_result a w m)
      db db' h well
Step-IsWellFormed db db' (ensure n at h) well = rw h (ensure_project-IsWellFormed n at db well)
Step-IsWellFormed db db' (resync n h) well = (sync-IsService n db h).keeps_form well
Step-IsWellFormed db db' (clear n h) well = (clear-IsService n db h).keeps_form well
Step-IsWellFormed db db' (normalize deployment h) well =
    (normalize-IsService deployment db h).keeps_form well
Step-IsWellFormed db db' (adopt app h) well = (promote-IsService app db h).keeps_form well
Step-IsWellFormed db db' (store_status n status up h (inl during)) well = cc during
Step-IsWellFormed db db' (store_status n status up h (inr calm)) well =
    set_status-IsWellFormed n status db h calm up well
Step-IsWellFormed db db' (elsewhere jobs projects) well =
    (same-IsService db db' jobs projects).keeps_form well

-- From well-formed tables, in every sequence of the transactions that write jobs, projects or
-- deployments in which the statuses of a stop and a start are stored only for a project that has a
-- current deployment and no queued or running job, the tables stay keyed and the stored status of
-- each project stays the one that is derived from its row and its jobs. A stop during a job, which
-- the program does not refuse, is outside of this.
pub Reachable-IsWellFormed :
    (db db' : Db) → IsWellFormed db → Reachable false db db' → IsWellFormed db'
Reachable-IsWellFormed db db' well here = well
Reachable-IsWellFormed db db' well (step {db1} r s) =
    Step-IsWellFormed db1 db' s (Reachable-IsWellFormed db db1 well r)

Step-finished :
    (during_jobs : Bool) (db db' : Db) (k : String) (j : JobRow)
    → Step during_jobs db db'
    → IsKeyed db.jobs db.projects
    → is_active j.status ≡ false
    → HasJob k j db
    → HasJob k j db'
Step-finished d db db' k j (create id at n source_type source_ref job h) keyed finished found =
    create-keeps id at n source_type source_ref db k j keyed h found
Step-finished d db db' k j (claim id at h) keyed finished found =
    ap (λ (d : Db). select_row (has_id k) d.jobs) (h ∙ claim-db id at db)
    ∙ update-finished (is_job_at id JobStatus.queued) (claimed at) db.jobs k j (λ x. refl)
        (at_active id JobStatus.queued refl) found finished
Step-finished d db db' k j (set_phase id phase h) keyed finished found =
    ap (λ (d : Db). select_row (has_id k) d.jobs) (h ∙ phase-db id phase db)
    ∙ update-finished (is_job_at id JobStatus.running)
        (λ row. record row { phase = some (trim_space phase) }) db.jobs k j (λ x. refl)
        (at_active id JobStatus.running refl) found finished
Step-finished d db db' k j (fail id finished_at message result h) keyed finished found =
    failed-finished id finished_at message result db db' k j finished h found
Step-finished d db db' k j (promote job finished_at result row had same h) keyed finished found =
    let (one, new, sync) = promotion-steps job finished_at result db h in
    ap (λ (d : Db). select_row (has_id k) d.jobs) sync.result
    ∙ update-finished (is_job_at job.id JobStatus.running) (job_succeeded finished_at result)
        db.jobs k j (λ x. refl) (at_active job.id JobStatus.running refl) found finished
Step-finished d db db' k j (recover finished_at h) keyed finished found =
    recover-keeps (HasJob k j) finished_at
      (λ id a b m f.
        failed-finished id (finished_at id) interrupted_job_error_message no_result a b k j finished
          m f)
      db db' h found
Step-finished d db db' k j (ensure n at h) keyed finished found =
    same_jobs-finished db db' k j
      (ap (λ (x : Db). x.jobs) h ∙ (ensure_project-keys n at db keyed).0) found
Step-finished d db db' k j (resync n h) keyed finished found =
    same_jobs-finished db db' k j (sync-IsService n db h).same_jobs found
Step-finished d db db' k j (clear n h) keyed finished found =
    same_jobs-finished db db' k j (clear-IsService n db h).same_jobs found
Step-finished d db db' k j (normalize deployment h) keyed finished found =
    same_jobs-finished db db' k j (normalize-IsService deployment db h).same_jobs found
Step-finished d db db' k j (adopt app h) keyed finished found =
    same_jobs-finished db db' k j (promote-IsService app db h).same_jobs found
Step-finished d db db' k j (store_status n status up h calm) keyed finished found =
    same_jobs-finished db db' k j (set_status-jobs n status db h) found
Step-finished d db db' k j (elsewhere jobs projects) keyed finished found =
    same_jobs-finished db db' k j jobs found

-- From keyed tables, a job that has succeeded or failed keeps its row in every sequence of the
-- transactions that write jobs, projects or deployments, stops and starts during a job among them.
pub Reachable-finished :
    (during_jobs : Bool) (db db' : Db) (k : String) (j : JobRow)
    → IsKeyed db.jobs db.projects
    → select_row (has_id k) db.jobs ≡ some j
    → is_active j.status ≡ false
    → Reachable during_jobs db db'
    → select_row (has_id k) db'.jobs ≡ some j
Reachable-finished d db db' k j keyed found finished here = found
Reachable-finished d db db' k j keyed found finished (step {db1} r s) =
    Step-finished d db1 db' k j s (Reachable-IsKeyed d db db1 keyed r) finished
      (Reachable-finished d db db1 k j keyed found finished r)

deploying_pos :
    (n : ℕ) (current : Option String) (s : ProjectStatus) (latest : Option JobStatus)
    → (status_of n current s latest ≡ ProjectStatus.deploying) ↔ (0 < n)
unfolding status_of job_status_eq
deploying_pos n current s latest = ground arith

deploying-row :
    (db : Db) (p : ProjectRow)
    → (row_status db p ≡ ProjectStatus.deploying) ↔ (0 < count_where (is_active_of p.name) db.jobs)
unfolding row_status
deploying-row db p = deploying_pos _ _ _ _

-- From well-formed tables, in every sequence of the transactions that write jobs, projects or
-- deployments in which the statuses of a stop and a start are stored only for a project that has a
-- current deployment and no queued or running job, a project is stored as deploying exactly when
-- one of its jobs is queued or running. A stop during a job, which the program does not refuse, is
-- outside of this.
pub Reachable-deploying :
    (db db' : Db) (p : ProjectRow) (n : String)
    → IsWellFormed db
    → Reachable false db db'
    → select_row (has_name n) db'.projects ≡ some p
    → (p.status ≡ ProjectStatus.deploying) ↔ (count_where (is_active_of n) db'.jobs ≡ 1)
Reachable-deploying db db' p n well r found =
    let well' = Reachable-IsWellFormed db db' well r in
    let named = has_name-eq n p (select_row-holds (has_name n) db'.projects p found) in
    let (there, back) = deploying-row db' p in
    (
      (λ e.
          exactly (ap (λ k. count_where (is_active_of k) db'.jobs) named)
            (there (sym (well'.synced n p found) ∙ e)) (well'.keyed.single n)),
      (λ one.
          well'.synced n p found
          ∙ back (positive (ap (λ k. count_where (is_active_of k) db'.jobs) named) one)),
    )
  where
    exactly : {a b : ℕ} → a ≡ b → 0 < a → b ≤ 1 → b ≡ 1
    exactly e l m = omega arith

    positive : {a b : ℕ} → a ≡ b → b ≡ 1 → 0 < a
    positive e m = omega arith
