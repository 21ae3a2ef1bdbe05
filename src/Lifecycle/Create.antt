-- ===== src/Lifecycle/Create.antt =====
-- ensureProjectTx, as createQueuedJobWithSource (cmd/brain/jobs.go) begins with it.
use ovek.Common.{
  ◌↔◌, ℕ, ◌≤◌, ◌≡◌, ◌≢◌, refl, sym, ap, ◌∙◌, String, Bool, true, none, some, List, [], ◌∷◌, ◌++◌,
  arith, ◌==◌, eq_iff, eq_refl, Option-cases, inl, inr, if◌then◌else◌, Bool-cases,
}
use mathlib.Core.Option.{some-injective}
use ovek.Store.{Db, JobRow, ProjectRow, ProjectStatus}
use ovek.Store.Sql.{select_row, count_where}
use ovek.Store.Rows.{count-snoc, select_row-snoc_found, select_row-snoc_none, count-select_row-none}
use ovek.Store.Laws.{count_pos_of_row}
use ovek.Projects.{has_name, ensure_project}
use ovek.Projects.Laws.{IsSyncedRow}
use ovek.Projects.Frames.{==-false, row_status-same_jobs}
use ovek.Lifecycle.{IsKeyed, IsWellFormed}

-- What ensureProjectTx leaves behind.
pub record Ensured (n : String) (db db1 : Db) : Type 0 where
  pub jobs : db1.jobs ≡ db.jobs
  pub one : count_where (has_name n) db1.projects ≡ 1
  pub keyed : IsKeyed db1.jobs db1.projects
  pub others : (m : String) → m ≢ n → IsSyncedRow db1 m

abbrev pub fresh_project : String → String → ProjectRow
fresh_project n created_at = record {
  name = n;
  status = ProjectStatus.idle;
  current_deployment_id = none;
  created_at = created_at;
}

pub ensure-found :
    (n at : String) (db : Db) (p : ProjectRow)
    → select_row (has_name n) db.projects ≡ some p
    → ensure_project n at db ≡ db
unfolding ensure_project
ensure-found n at db p e = rw (e, ensure_project)

pub ensure-new :
    (n at : String) (db : Db)
    → select_row (has_name n) db.projects ≡ none
    → ensure_project n at db ≡ record db { projects = db.projects ++ fresh_project n at ∷ [] }
unfolding ensure_project
ensure-new n at db e = rw (e, ensure_project)

new_project-IsKeyed :
    (jobs : List JobRow) (projects : List ProjectRow) (n at : String)
    → count_where (has_name n) projects ≡ 0
    → IsKeyed jobs projects
    → IsKeyed jobs (projects ++ fresh_project n at ∷ [])
new_project-IsKeyed jobs projects n at missing keyed = record {
  job_ids = keyed.job_ids;
  names = λ m. named m (keyed.names m) (eq_iff n m);
  owned =
      λ id row found. owned row.project_name (keyed.owned id row found) (eq_iff n row.project_name);
  single = keyed.single;
}
  where
    named :
        (m : String)
        → count_where (has_name m) projects ≤ 1
        → ◌↔◌ ((n == m) ≡ true) (n ≡ m)
        → count_where (has_name m) (projects ++ fresh_project n at ∷ []) ≤ 1
    named m l same = elim (Bool-cases (n == m)) [
      | inl e ↦
          rw (count-snoc (has_name m) projects (fresh_project n at), e, sym (same.0 e), missing)
            (omega arith)
      | inr e ↦ rw (count-snoc (has_name m) projects (fresh_project n at), e) (omega arith)
    ]

    owned :
        (m : String)
        → count_where (has_name m) projects ≡ 1
        → ◌↔◌ ((n == m) ≡ true) (n ≡ m)
        → count_where (has_name m) (projects ++ fresh_project n at ∷ []) ≡ 1
    owned m l same = elim (Bool-cases (n == m)) [
      | inl e ↦ absurd (clash (same.0 e))
      | inr e ↦ rw (count-snoc (has_name m) projects (fresh_project n at), e, l) (omega arith)
    ]
      where
        clash : n ≡ m → ⊥
        clash e = zero_one (sym missing ∙ ap (λ k. count_where (has_name k) projects) e ∙ l)
          where
            zero_one : ◌≡◌ {A = ℕ} 0 1 → ⊥
            zero_one z = omega arith

new_project-IsSyncedRow :
    (db : Db) (n at m : String)
    → m ≢ n
    → IsSyncedRow db m
    → IsSyncedRow (record db { projects = db.projects ++ fresh_project n at ∷ [] }) m
new_project-IsSyncedRow db n at m other synced p found =
    elim (Option-cases (select_row (has_name m) db.projects)) [
      | inl e ↦ cc (
        found,
        select_row-snoc_none (has_name m) db.projects (fresh_project n at) e,
        ap (λ (b : Bool). if b then some (fresh_project n at) else none)
            (==-false n m (λ s. other (sym s))),
      )
      | inr (q, e) ↦
          let same : p ≡ q =
            some-injective _ _ (
              sym found
              ∙ select_row-snoc_found (has_name m) db.projects (fresh_project n at) q e) in
          rw same (
            synced q e
            ∙ sym (
                row_status-same_jobs db
                  (record db { projects = db.projects ++ fresh_project n at ∷ [] }) q refl))
    ]

pub ensure_project-keys :
    (n at : String) (db : Db)
    → IsKeyed db.jobs db.projects
    → ((ensure_project n at db).jobs ≡ db.jobs)
      × (count_where (has_name n) (ensure_project n at db).projects ≡ 1)
      × IsKeyed (ensure_project n at db).jobs (ensure_project n at db).projects
ensure_project-keys n at db keyed = elim (Option-cases (select_row (has_name n) db.projects)) [
  | inl e ↦
      let missing = count-select_row-none (has_name n) db.projects e in
      rw (ensure-new n at db e) (
        refl,
        rw (count-snoc (has_name n) db.projects (fresh_project n at), missing, eq_refl n)
            (omega arith),
        new_project-IsKeyed db.jobs db.projects n at missing keyed,
      )
  | inr (p, e) ↦
      let some_row = count_pos_of_row (has_name n) db.projects p e in
      let most = keyed.names n in rw (ensure-found n at db p e) (refl, omega arith, keyed)
]

pub ensure-others :
    (n at : String) (db : Db)
    → ((m : String) → m ≢ n → IsSyncedRow db m)
    → (m : String) → m ≢ n
    → IsSyncedRow (ensure_project n at db) m
ensure-others n at db synced m other = elim (Option-cases (select_row (has_name n) db.projects)) [
  | inl e ↦ rw (ensure-new n at db e) (new_project-IsSyncedRow db n at m other (synced m other))
  | inr (p, e) ↦ rw (ensure-found n at db p e) (synced m other)
]

pub ensure_project-Ensured :
    (n at : String) (db : Db) → IsWellFormed db → Ensured n db (ensure_project n at db)
ensure_project-Ensured n at db well =
    let (jobs, one, keyed) = ensure_project-keys n at db well.keyed in
    record {
      jobs = jobs;
      one = one;
      keyed = keyed;
      others = ensure-others n at db (λ m _. well.synced m);
    }
