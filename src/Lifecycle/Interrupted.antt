-- ===== src/Lifecycle/Interrupted.antt =====
-- The loop of recoverInterruptedJobs (cmd/brain/worker.go), call by call.
use ovek.Common.{◌≡◌, String, List, [], ◌∷◌, subst}
use ovek.Store.{Db}
use ovek.Store.Sql.{ok, ok_inj, bind-ok}
use ovek.Worker.{
  interrupted_job_error_message, mark_job_failed, no_result, fail_interrupted,
  recover_interrupted_jobs,
}

-- What every failure keeps, the recovery keeps.
loop-keeps :
    (P : Db → Type 0) (finished_at : String → String)
    → ((id : String) (db db' : Db)
        → mark_job_failed id (finished_at id) interrupted_job_error_message no_result db ≡ ok db'
        → P db
        → P db')
    → (ids : List String) (db db' : Db) → fail_interrupted finished_at ids db ≡ ok db'
    → P db
    → P db'
unfolding fail_interrupted
loop-keeps P finished_at keeps [] db db' h p = subst P (ok_inj db db' h) p
loop-keeps P finished_at keeps (id ∷ ids) db db' h p =
    let (db1, marked, rest) =
      bind-ok (mark_job_failed id (finished_at id) interrupted_job_error_message no_result db) _
        h in
    loop-keeps P finished_at keeps ids db1 db' rest (keeps id db db1 marked p)

pub recover-keeps :
    (P : Db → Type 0) (finished_at : String → String)
    → ((id : String) (db db' : Db)
        → mark_job_failed id (finished_at id) interrupted_job_error_message no_result db ≡ ok db'
        → P db
        → P db')
    → (db db' : Db) → recover_interrupted_jobs finished_at db ≡ ok db'
    → P db
    → P db'
unfolding recover_interrupted_jobs
recover-keeps P finished_at keeps db db' h p = loop-keeps P finished_at keeps _ db db' h p
