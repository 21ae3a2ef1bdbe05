-- ===== src/Scheduler/InStep.antt =====
-- The entries of the scheduler and those of its cron: Replace, Remove and Start of
-- cmd/brain/workflow_scheduler.go.
use mathlib.Core.Option.{some-injective}
use native.Mathlib.Nat.{le_trans}
use ovek.Common.{
  ℕ, suc, ◌+◌, ◌≤◌, ◌≡◌, refl, sym, ap, subst, ◌∙◌, arith, ◌⊎◌, inl, inr, String, Bool, true, false,
  not, Option, none, some, ◌∷◌, ◌==◌, nat_eq, if◌then◌else◌, Bool-cases, Option-cases, eq_iff,
  nat_eq_iff, ◌&&◌,
}
use ovek.Store.Sql.{select_row, count_where}
use ovek.Store.Rows.{count-delete, count-select_row-none}
use ovek.Store.Changes.{count-delete_one, count-delete_le}
use ovek.Store.Laws.{count_pos_of_row}
use ovek.Workflows.{Workflow}
use ovek.Scheduler.{
  CronJob, Cron, Entry, SchedulerState, has_key, workflow_schedule_key, remove_key,
}

abbrev pub has_entry_id : ℕ → Entry → Bool
has_entry_id entry_id entry = nat_eq entry.entry_id entry_id

abbrev pub number : Option CronJob → ℕ
number none = 0
number (some job) = 1

-- The job of a text and its schedule, where a refused one leaves every id as it was.
abbrev pub AddIsFresh : {C : Type 0} → Cron C → Type 0
AddIsFresh {C} cron =
    (schedule : String) (job : CronJob) (c : C) (i : ℕ)
    → (((cron.add_func schedule job c).0 ≡ none)
        × (cron.job_of (cron.add_func schedule job c).1 i ≡ cron.job_of c i))
      ⊎ ((entry_id : ℕ) × ((cron.add_func schedule job c).0 ≡ some entry_id)
          × (cron.job_of c entry_id ≡ none)
          × (cron.job_of (cron.add_func schedule job c).1 i
              ≡ (if nat_eq entry_id i then some job else cron.job_of c i)))

abbrev pub RemoveIsExact : {C : Type 0} → Cron C → Type 0
RemoveIsExact {C} cron =
    (entry_id : ℕ) (c : C) (i : ℕ)
    → cron.job_of (cron.remove entry_id c) i ≡ (if nat_eq entry_id i then none else cron.job_of c i)

-- A key has one entry at most, and the ids of the entries are those of the jobs in the cron, each
-- once.
pub record IsInStep {C : Type 0} (cron : Cron C) (s : SchedulerState C) : Type 0 where
  pub keyed : (key : String) → count_where (has_key key) s.entries ≤ 1
  pub counted : (i : ℕ) → count_where (has_entry_id i) s.entries ≡ number (cron.job_of s.cron i)

abbrev pub job_of_workflow : Workflow → CronJob
job_of_workflow workflow = record {
  project_name = workflow.project_name;
  workflow_name = workflow.name;
}

module _ {C : Type 0} (cron : Cron C) where
  -- The job that a workflow has in the cron.
  abbrev pub job_for : String → SchedulerState C → Option CronJob
  job_for key s = elim (select_row (has_key key) s.entries) [
    | none ↦ none
    | some entry ↦ cron.job_of s.cron entry.entry_id
  ]

  -- The cron is in step, and the workflow has its job there when it is enabled, has a schedule and
  -- that schedule was accepted, and none otherwise.
  abbrev pub IsScheduled : Workflow → Bool × SchedulerState C → Type 0
  IsScheduled workflow result =
      IsInStep cron result.1
      × (job_for (workflow_schedule_key workflow.project_name workflow.name) result.1 ≡ (
          if result.0 && (workflow.enabled && not (workflow.schedule == ""))
          then some (job_of_workflow workflow)
          else none))

module _ {C : Type 0} (cron : Cron C) (fresh : AddIsFresh cron) (exact : RemoveIsExact cron) where
  one_entry :
      (key : String) (s : SchedulerState C) {entry : Entry}
      → IsInStep cron s
      → select_row (has_key key) s.entries ≡ some entry
      → count_where (has_key key) s.entries ≡ 1
  one_entry key s {entry} step e =
      omega (arith, step.keyed key, count_pos_of_row (has_key key) s.entries entry e)

  less_one :
      (n : ℕ) (b : Bool) (o : Option CronJob) {o' : Option CronJob}
      → n + (if b then 1 else 0) ≡ number o
      → o' ≡ (if b then none else o)
      → n ≡ number o'
  less_one n true none h e = absurd (omega arith)
  less_one n true (some j) h e = rw e (omega (arith, h))
  less_one n false o h e = rw e (zero_more h)
    where
      zero_more : {m : ℕ} → n + 0 ≡ m → n ≡ m
      zero_more h = omega arith

  one_more :
      (n : ℕ) (b : Bool) (o : Option CronJob) (job : CronJob) {o' : Option CronJob}
      → n ≡ number o
      → (b ≡ true → o ≡ none)
      → o' ≡ (if b then some job else o)
      → (if b then suc n else n) ≡ number o'
  one_more n true o job h free e = rw e (ap suc (h ∙ ap number (free refl)))
  one_more n false o job h free e = rw e h

  pub remove_key-IsInStep :
      (key : String) (s : SchedulerState C)
      → IsInStep cron s
      → IsInStep cron (remove_key cron key s)
  unfolding remove_key
  remove_key-IsInStep key s step = elim (Option-cases (select_row (has_key key) s.entries)) [
    | inl e ↦ rw (e, remove_key) step
    | inr (entry, e) ↦
        rw (e, remove_key)
          (record {
            keyed =
                λ k. le_trans (count-delete_le (has_key k) (has_key key) s.entries) (step.keyed k);
            counted = λ i.
                less_one _ (nat_eq entry.entry_id i) (cron.job_of s.cron i)
                  (count-delete_one (has_entry_id i) (has_key key) s.entries
                      (one_entry key s step e) e
                    ∙ step.counted i)
                  (exact entry.entry_id s.cron i);
          })
  ]

  pub remove_key-gone :
      (key : String) (s : SchedulerState C)
      → count_where (has_key key) (remove_key cron key s).entries ≡ 0
  unfolding remove_key
  remove_key-gone key s = elim (Option-cases (select_row (has_key key) s.entries)) [
    | inl e ↦ rw (e, remove_key) (count-select_row-none (has_key key) s.entries e)
    | inr (entry, e) ↦ rw (e, remove_key) (count-delete (has_key key) s.entries)
  ]

  -- Adding the entry of a key that has none.
  pub insert-IsInStep :
      (key schedule : String) (job : CronJob) (s : SchedulerState C) (entry_id : ℕ)
      → IsInStep cron s
      → count_where (has_key key) s.entries ≡ 0
      → (cron.add_func schedule job s.cron).0 ≡ some entry_id
      → IsInStep cron (record {
        entries = record { key = key; entry_id = entry_id } ∷ s.entries;
        cron = (cron.add_func schedule job s.cron).1;
      })
  unfolding count_where
  insert-IsInStep key schedule job s entry_id step gone added = record {
    keyed = λ k. elim (Bool-cases (key == k)) [
      | inl e ↦
          at_most_one k
            (subst (λ x. count_where (has_key x) s.entries ≡ 0) ((eq_iff key k).0 e) gone) e
      | inr e ↦ rw (e, count_where) (step.keyed k)
    ];
    counted = λ i. elim (fresh schedule job s.cron i) [
      | inl (none_added, same) ↦ cc (none_added, added)
      | inr (id, added', free, job_of) ↦
          let same = some-injective id entry_id (sym added' ∙ added) in
          one_more _ (nat_eq entry_id i) (cron.job_of s.cron i) job (step.counted i)
            (λ e.
              subst (λ x. cron.job_of s.cron x ≡ none) (same ∙ (nat_eq_iff entry_id i).0 e) free)
            (subst
              (λ x.
                cron.job_of (cron.add_func schedule job s.cron).1 i
                ≡ (if nat_eq x i then some job else cron.job_of s.cron i))
              same job_of)
    ];
  }
    where
      at_most_one :
          (k : String)
          → count_where (has_key k) s.entries ≡ 0
          → (key == k) ≡ true
          → (if key == k
              then suc (count_where (has_key k) s.entries)
              else count_where (has_key k) s.entries)
            ≤ 1
      at_most_one k none_yet e = rw e (omega (arith, none_yet))
