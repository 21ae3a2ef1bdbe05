-- ===== src/Lifecycle/Keys.antt =====
-- The updates of cmd/brain/worker.go and cmd/brain/project_status.go keep the tables keyed.
use ovek.Common.{
  ◌↔◌, ◌≤◌, ◌≡◌, refl, sym, ap, ◌∙◌, String, Bool, true, Option, none, some, List, [], ◌∷◌, ◌++◌,
  arith, ◌==◌, eq_iff, Option-cases, inl, inr, Memᴰ, if◌then◌else◌, Bool-cases, subst,
}
use mathlib.Core.Option.{some-injective}
use ovek.Store.{Db, JobRow, ProjectRow}
use ovek.Store.Sql.{select_row, count_where, update_where}
use ovek.Store.Laws.{changed, changed_option, select_row-update, count-update, row_unique}
use ovek.Store.Rows.{count-update_le, count-snoc, select_row-snoc_found, select_row-snoc_none}
use ovek.Projects.{is_active, is_active_of, has_name}
use ovek.Projects.Laws.{Synced}
use ovek.Jobs.{has_id}
use ovek.Lifecycle.{IsKeyed}

-- The row with an id is the only one with it.
pub job_row_unique :
    (jobs : List JobRow) (projects : List ProjectRow)
    → IsKeyed jobs projects
    → (id : String) (row j : JobRow) → select_row (has_id id) jobs ≡ some row
    → Memᴰ j jobs
    → has_id id j ≡ true
    → j ≡ row
job_row_unique jobs projects keyed id row j found mem h =
    row_unique (has_id id) jobs row j (keyed.job_ids id) found mem h

module _ (p : JobRow → Bool) (f : JobRow → JobRow) (jobs : List JobRow)
    (keeps_id : (j : JobRow) → (f j).id ≡ j.id)
    (keeps_project : (j : JobRow) → (f j).project_name ≡ j.project_name) where
  -- Looking up a job after an update.
  pub job_row-update :
      (id : String)
      → select_row (has_id id) (update_where p f jobs)
        ≡ changed_option p f (select_row (has_id id) jobs)
  job_row-update id = select_row-update (has_id id) p f jobs (λ j h. rw (keeps_id j))

  changed-project : (j : JobRow) → (changed p f j).project_name ≡ j.project_name
  changed-project j = ground (arith, keeps_project j)

  pub jobs-IsKeyed :
      {projects : List ProjectRow}
      → ((j : JobRow) → p j ≡ true → is_active (f j).status ≡ true → is_active j.status ≡ true)
      → IsKeyed jobs projects
      → IsKeyed (update_where p f jobs) projects
  jobs-IsKeyed {projects} stays keyed = record {
    job_ids = λ id.
        rw (count-update (has_id id) p f jobs (λ j mem h. rw (keeps_id j))) (keyed.job_ids id);
    names = keyed.names;
    owned = owned;
    single = λ n. single n (keyed.single n);
  }
    where
      owned :
          (id : String) (row : JobRow)
          → select_row (has_id id) (update_where p f jobs) ≡ some row
          → count_where (has_name row.project_name) projects ≡ 1
      owned id row found = elim (Option-cases (select_row (has_id id) jobs)) [
        | inl e ↦ cc (found, job_row-update id, e)
        | inr (j, e) ↦
            let is_changed : row ≡ changed p f j =
              some-injective _ _ (sym found ∙ job_row-update id ∙ ap (changed_option p f) e) in
            rw (is_changed, changed-project j) (keyed.owned id j e)
      ]

      active_before :
          (n : String) (j : JobRow)
          → p j ≡ true
          → is_active_of n (f j) ≡ true
          → is_active_of n j ≡ true
      active_before n j h k = ground (arith, keeps_project j, stays j h, k)

      single :
          (n : String)
          → count_where (is_active_of n) jobs ≤ 1
          → count_where (is_active_of n) (update_where p f jobs) ≤ 1
      single n l = omega (arith, count-update_le (is_active_of n) p f jobs (active_before n))

-- A change of project rows that keeps their names.
pub projects-IsKeyed :
    (jobs : List JobRow) (projects : List ProjectRow) (p : ProjectRow → Bool)
    (f : ProjectRow → ProjectRow)
    → ((r : ProjectRow) → (f r).name ≡ r.name)
    → IsKeyed jobs projects
    → IsKeyed jobs (update_where p f projects)
projects-IsKeyed jobs projects p f keeps keyed = record {
  job_ids = keyed.job_ids;
  names = λ n. rw (same n) (keyed.names n);
  owned = λ id row found. same row.project_name ∙ keyed.owned id row found;
  single = keyed.single;
}
  where
    same :
        (n : String)
        → count_where (has_name n) (update_where p f projects) ≡ count_where (has_name n) projects
    same n = count-update (has_name n) p f projects (λ r mem h. rw (keeps r))

pub Synced-IsKeyed :
    (n : String) (db db' : Db)
    → Synced n db db'
    → IsKeyed db.jobs db.projects
    → IsKeyed db'.jobs db'.projects
Synced-IsKeyed n db db' synced keyed =
    subst (λ (d : Db). IsKeyed d.jobs d.projects) (sym synced.result)
      (projects-IsKeyed db.jobs db.projects _ _ (λ r. refl) keyed)

-- A new job whose id is new, whose project is there, and which is its project's only active job.
pub insert-IsKeyed :
    (jobs : List JobRow) (projects : List ProjectRow) (row : JobRow)
    → count_where (has_id row.id) jobs ≡ 0
    → count_where (has_name row.project_name) projects ≡ 1
    → count_where (is_active_of row.project_name) jobs ≡ 0
    → IsKeyed jobs projects
    → IsKeyed (jobs ++ row ∷ []) projects
insert-IsKeyed jobs projects row new there idle keyed = record {
  job_ids = λ id. ids id (keyed.job_ids id) (eq_iff row.id id);
  names = keyed.names;
  owned = owned;
  single = λ n. single n (keyed.single n) (eq_iff row.project_name n);
}
  where
    ids :
        (id : String)
        → count_where (has_id id) jobs ≤ 1
        → ◌↔◌ ((row.id == id) ≡ true) (row.id ≡ id)
        → count_where (has_id id) (jobs ++ row ∷ []) ≤ 1
    ids id l same = elim (Bool-cases (row.id == id)) [
      | inl e ↦ rw (count-snoc (has_id id) jobs row, e, sym (same.0 e), new) (omega arith)
      | inr e ↦ rw (count-snoc (has_id id) jobs row, e) (omega arith)
    ]

    single :
        (n : String)
        → count_where (is_active_of n) jobs ≤ 1
        → ◌↔◌ ((row.project_name == n) ≡ true) (row.project_name ≡ n)
        → count_where (is_active_of n) (jobs ++ row ∷ []) ≤ 1
    single n l same = elim (Bool-cases (row.project_name == n)) [
      | inl e ↦ rw (count-snoc (is_active_of n) jobs row, sym (same.0 e), idle) (ground arith)
      | inr e ↦ rw (count-snoc (is_active_of n) jobs row, e) (omega arith)
    ]

    owned :
        (id : String) (r : JobRow)
        → select_row (has_id id) (jobs ++ row ∷ []) ≡ some r
        → count_where (has_name r.project_name) projects ≡ 1
    owned id r found = elim (Option-cases (select_row (has_id id) jobs)) [
      | inl e ↦ last r (sym (select_row-snoc_none (has_id id) jobs row e) ∙ found)
      | inr (j, e) ↦
          let same : r ≡ j =
            some-injective _ _ (sym found ∙ select_row-snoc_found (has_id id) jobs row j e) in
          rw same (keyed.owned id j e)
    ]
      where
        last :
            (r : JobRow)
            → ◌≡◌ {A = Option JobRow} (if has_id id row then some row else none) (some r)
            → count_where (has_name r.project_name) projects ≡ 1
        last r e = elim (Bool-cases (has_id id row)) [
          | inl t ↦ rw (sym (some-injective row r (rw t at e))) there
          | inr t ↦ cc (rw t at e)
        ]
