-- ===== src/Lifecycle/Ensured.antt =====
-- ensureProjectTx on its own, as the transactions of cmd/brain/workflows.go and
-- cmd/brain/project_config.go begin with it: a new project has no jobs.
use ovek.Common.{
  ℕ, ◌≡◌, refl, sym, ap, ◌∙◌, String, Bool, true, false, ◌&&◌, none, some, [], ◌∷◌, ◌++◌, ◌==◌,
  arith, eq_iff, eq_refl, Option-cases, inl, inr, Memᴰ, if◌then◌else◌, subst, Bool-cases,
}
use mathlib.Core.Option.{some-injective}
use ovek.Store.{Db, JobRow, ProjectStatus}
use ovek.Store.Sql.{select, select_row, count_where, order_by, first_row}
use ovek.Store.Laws.{no_row_of_count}
use ovek.Store.Rows.{count-select_row-none, select_row-snoc_none, select-count_zero}
use ovek.Store.Changes.{count_none_mem, count_zero_of}
use ovek.Projects.{is_active_of, has_name, row_status, latest_job, status_of, ensure_project}
use ovek.Projects.Laws.{IsSyncedRow}
use ovek.Jobs.{has_id}
use ovek.Lifecycle.{IsKeyed, IsWellFormed}
use ovek.Lifecycle.Keys.{job_row_unique}
use ovek.Lifecycle.Create.{
  fresh_project, ensure_project-keys, ensure-others, ensure-new, ensure-found,
}

no_job-of :
    (n : String) (db : Db)
    → IsKeyed db.jobs db.projects
    → count_where (has_name n) db.projects ≡ 0
    → (j : JobRow) → Memᴰ j db.jobs
    → (j.project_name == n) ≡ false
no_job-of n db keyed missing j mem = elim (Option-cases (select_row (has_id j.id) db.jobs)) [
  | inl e ↦ cc (
    eq_refl j.id,
    no_row_of_count (has_id j.id) db.jobs j (count-select_row-none (has_id j.id) db.jobs e) mem,
  )
  | inr (r, e) ↦
      let same = job_row_unique db.jobs db.projects keyed j.id r j e mem (eq_refl j.id) in
      elim (Bool-cases (j.project_name == n)) [
        | inr other ↦ other
        | inl of_n ↦ absurd (
            zero_one (
              sym missing
              ∙ ap (λ k. count_where (has_name k) db.projects)
                  (sym ((eq_iff j.project_name n).0 of_n)
                    ∙ ap (λ (x : JobRow). x.project_name) same)
              ∙ keyed.owned j.id r e))
      ]
]
  where
    zero_one : ◌≡◌ {A = ℕ} 0 1 → ⊥
    zero_one z = omega arith

idle_row :
    (db : Db) (n at : String)
    → count_where (is_active_of n) db.jobs ≡ 0
    → select (λ j. j.project_name == n) db.jobs ≡ []
    → row_status db (fresh_project n at) ≡ ProjectStatus.idle
unfolding row_status latest_job status_of order_by first_row
idle_row db n at idle none_of = rw (idle, none_of) refl

pub ensure_project-IsWellFormed :
    (n at : String) (db : Db) → IsWellFormed db → IsWellFormed (ensure_project n at db)
ensure_project-IsWellFormed n at db well = record {
  keyed = (ensure_project-keys n at db well.keyed).2;
  synced = λ m. elim (Bool-cases (m == n)) [
    | inr e ↦ ensure-others n at db (λ k _. well.synced k) m (λ same. cc (e, same, eq_refl n))
    | inl e ↦ subst (IsSyncedRow (ensure_project n at db)) (sym ((eq_iff m n).0 e)) own
  ];
}
  where
    own : IsSyncedRow (ensure_project n at db) n
    own = elim (Option-cases (select_row (has_name n) db.projects)) [
      | inr (p, e) ↦ rw (ensure-found n at db p e) (well.synced n)
      | inl e ↦ rw (ensure-new n at db e) (λ p found.
          let missing = count-select_row-none (has_name n) db.projects e in
          let none_of =
            count_none_mem (λ (j : JobRow). j.project_name == n) db.jobs
              (no_job-of n db well.keyed missing) in
          let is_new : p ≡ fresh_project n at = some-injective _ _ (
            sym found
            ∙ select_row-snoc_none (has_name n) db.projects (fresh_project n at) e
            ∙ ap (λ (b : Bool). if b then some (fresh_project n at) else none) (eq_refl n)) in
          rw is_new (
            sym (
              idle_row (record db { projects = db.projects ++ fresh_project n at ∷ [] }) n at
                (count_zero_of (is_active_of n) (λ (j : JobRow). j.project_name == n) db.jobs
                  (λ j h. first _ _ h) none_of)
                (select-count_zero (λ (j : JobRow). j.project_name == n) db.jobs none_of))))
    ]
      where
        first : (a b : Bool) → (a && b) ≡ true → a ≡ true
        first a b h = ground arith
