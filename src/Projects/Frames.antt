-- ===== src/Projects/Frames.antt =====
-- What keeps the stored status of projects in step (cmd/brain/project_status.go) when jobs change.
use ovek.Common.{
  ◌<◌, ◌≡◌, ◌≢◌, refl, sym, ap, ◌∙◌, String, Bool, true, false, some, [], ◌∷◌, ◌++◌, arith, ◌==◌,
  eq_iff, eq_refl, Bool-cases, Option-cases, ltb, inl, inr, Memᴰ, ltb→lt, not_ltb→le,
}
use mathlib.Core.Option.{some-injective}
use ovek.Store.{Db, ProjectRow, JobRow, ProjectStatus}
use ovek.Store.Sql.{select, select_row, count_where, update_where}
use ovek.Store.Laws.{
  changed, changed_option, select_row-update, select_row-holds, count-update, select-update,
  no_row_of_count,
}
use ovek.Store.Rows.{count-snoc, select-snoc_false}
use ovek.Projects.{is_active, is_active_of, latest_job, has_name, row_status, with_status}
use ovek.Projects.Laws.{status_of_idem, status_of_pos, IsSyncedRow, IsSynced, Synced}

pub has_name-eq : (n : String) (p : ProjectRow) → has_name n p ≡ true → p.name ≡ n
has_name-eq n p h = (eq_iff p.name n).0 h

pub ==-false : (a b : String) → a ≢ b → (a == b) ≡ false
==-false a b h = elim (Bool-cases (a == b)) [ inl e ↦ absurd (h ((eq_iff a b).0 e)) | inr e ↦ e ]

-- The status of a row depends on the jobs of its project alone.
pub row_status-jobs :
    (db db' : Db) (p : ProjectRow)
    → count_where (is_active_of p.name) db'.jobs ≡ count_where (is_active_of p.name) db.jobs
    → select (λ j. j.project_name == p.name) db'.jobs
      ≡ select (λ j. j.project_name == p.name) db.jobs
    → row_status db' p ≡ row_status db p
unfolding row_status latest_job
row_status-jobs db db' p counts rows = rw (counts, rows)

pub row_status-active :
    (db : Db) (p : ProjectRow)
    → 0 < count_where (is_active_of p.name) db.jobs
    → row_status db p ≡ ProjectStatus.deploying
unfolding row_status
row_status-active db p h = status_of_pos _ _ _ _ h

-- A second derivation on the derived row.
row_status_idem :
    (db db' : Db) (p : ProjectRow)
    → db'.jobs ≡ db.jobs
    → row_status db' (with_status (row_status db p) p) ≡ row_status db p
unfolding row_status latest_job
row_status_idem db db' p same = rw same (status_of_idem _ _ _ _)

pub row_status-same_jobs :
    (db db' : Db) (p : ProjectRow) → db'.jobs ≡ db.jobs → row_status db' p ≡ row_status db p
row_status-same_jobs db db' p same =
    row_status-jobs db db' p (ap (count_where (is_active_of p.name)) same)
      (ap (select (λ j. j.project_name == p.name)) same)

-- After a sync of one project every project is in step, if the others were.
pub sync-IsSynced :
    (n : String) (db db' : Db)
    → Synced n db db'
    → ((m : String) → m ≢ n → IsSyncedRow db m)
    → IsSynced db'
sync-IsSynced n db db' synced others m p found =
    elim (Option-cases (select_row (has_name m) db.projects)) [
      | inl e ↦ cc (looked, e)
      | inr (q, e) ↦
          let p_is : p ≡ changed (has_name n) (with_status (row_status db synced.row)) q =
            some-injective _ _ (
              looked
              ∙ ap (changed_option (has_name n) (with_status (row_status db synced.row))) e) in
          let q_name : q.name ≡ m =
            has_name-eq m q (select_row-holds (has_name m) db.projects q e) in
          (elim (Bool-cases (has_name n q)) [
            | inl h ↦ here q e (sym q_name ∙ has_name-eq n q h) (rw h at p_is)
            | inr h ↦ there q e (λ same. cc (h, eq_refl n, q_name, same)) (rw h at p_is)
          ])
    ]
  where
    looked :
        some p
        ≡ changed_option
            (has_name n)
            (with_status (row_status db synced.row))
            (select_row (has_name m) db.projects)
    looked =
        sym found
        ∙ ap (λ (d : Db). select_row (has_name m) d.projects) synced.result
        ∙ select_row-update (has_name m) (has_name n) (with_status (row_status db synced.row))
            db.projects (λ x h. refl)

    jobs_same : db'.jobs ≡ db.jobs
    jobs_same = ap (λ (d : Db). d.jobs) synced.result

    here :
        (q : ProjectRow)
        → select_row (has_name m) db.projects ≡ some q
        → m ≡ n
        → p ≡ with_status (row_status db synced.row) q
        → p.status ≡ row_status db' p
    here q e same p_is =
        let q_row : q ≡ synced.row =
          some-injective _ _
            (sym e ∙ ap (λ k. select_row (has_name k) db.projects) same ∙ synced.found) in
        rw (p_is, q_row) (sym (row_status_idem db db' synced.row jobs_same))

    there :
        (q : ProjectRow)
        → select_row (has_name m) db.projects ≡ some q
        → m ≢ n
        → p ≡ q
        → p.status ≡ row_status db' p
    there q e other p_is =
        rw p_is (others m other q e ∙ sym (row_status-same_jobs db db' q jobs_same))

module _ (db : Db) (p : JobRow → Bool) (f : JobRow → JobRow)
    (keeps_project : (j : JobRow) → (f j).project_name ≡ j.project_name) where
  -- A change to the jobs of one project leaves the others in step.
  pub jobs-IsSyncedRow :
      (n m : String)
      → ((j : JobRow) → Memᴰ j db.jobs → p j ≡ true → j.project_name ≡ n)
      → m ≢ n
      → IsSyncedRow db m
      → IsSyncedRow (record db { jobs = update_where p f db.jobs }) m
  jobs-IsSyncedRow n m of_n other synced r found =
      synced r found
      ∙ sym (
          row_status-jobs db (record db { jobs = update_where p f db.jobs }) r
            (count-update (is_active_of r.name) p f db.jobs
              (λ j mem h. rw (keeps_project j, elsewhere j mem h)))
            (select-update (λ j. j.project_name == r.name) p f db.jobs
              (λ j mem h. (elsewhere j mem h, rw (keeps_project j) (elsewhere j mem h)))))
    where
      elsewhere : (j : JobRow) → Memᴰ j db.jobs → p j ≡ true → (j.project_name == r.name) ≡ false
      elsewhere j mem h = ==-false j.project_name r.name (λ e. other (
          sym (has_name-eq m r (select_row-holds (has_name m) db.projects r found))
          ∙ sym e
          ∙ of_n j mem h))

  -- A change of active jobs to active jobs leaves every project in step.
  pub active-IsSynced :
      ((j : JobRow) → p j ≡ true → is_active j.status ≡ true)
      → ((j : JobRow) → p j ≡ true → is_active (f j).status ≡ true)
      → IsSynced db
      → IsSynced (record db { jobs = update_where p f db.jobs })
  active-IsSynced before after synced m r found =
      synced m r found
      ∙ sym (elim (Bool-cases (ltb 0 (count_where (is_active_of r.name) db.jobs))) [
        | inl h ↦
            row_status-active (record db { jobs = update_where p f db.jobs }) r
              (rw counts (ltb→lt _ _ h))
            ∙ sym (row_status-active db r (ltb→lt _ _ h))
        | inr h ↦
            row_status-jobs db (record db { jobs = update_where p f db.jobs }) r counts
              (select-update (λ j. j.project_name == r.name) p f db.jobs
                (λ j mem k. (idle h j mem k, rw (keeps_project j) (idle h j mem k))))
      ])
    where
      counts :
          count_where (is_active_of r.name) (update_where p f db.jobs)
          ≡ count_where (is_active_of r.name) db.jobs
      counts =
          count-update (is_active_of r.name) p f db.jobs
            (λ j mem h. rw (keeps_project j, before j h, after j h))

      idle :
          ltb 0 (count_where (is_active_of r.name) db.jobs) ≡ false
          → (j : JobRow) → Memᴰ j db.jobs
          → p j ≡ true
          → (j.project_name == r.name) ≡ false
      idle h j mem k =
          let none_active =
            no_row_of_count (is_active_of r.name) db.jobs j (ground (arith, not_ltb→le _ _ h))
              mem in
          elim (Bool-cases (j.project_name == r.name)) [
            | inl e ↦ absurd (ground (arith, none_active, e, before j k))
            | inr e ↦ e
          ]

-- A new job of one project leaves the others in step.
pub insert-IsSyncedRow :
    (db : Db) (row : JobRow) (m : String)
    → m ≢ row.project_name
    → IsSyncedRow db m
    → IsSyncedRow (record db { jobs = db.jobs ++ row ∷ [] }) m
insert-IsSyncedRow db row m other synced r found =
    synced r found
    ∙ sym (
        row_status-jobs db (record db { jobs = db.jobs ++ row ∷ [] }) r
          (count-snoc (is_active_of r.name) db.jobs row ∙ rw elsewhere (omega arith))
          (select-snoc_false (λ j. j.project_name == r.name) db.jobs row elsewhere))
  where
    elsewhere : (row.project_name == r.name) ≡ false
    elsewhere = ==-false row.project_name r.name (λ e.
        other (sym (has_name-eq m r (select_row-holds (has_name m) db.projects r found)) ∙ sym e))
