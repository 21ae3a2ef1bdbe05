-- ===== src/Scheduler/Replacement.antt =====
-- The job of a workflow in the cron after Replace, Remove and Start of
-- cmd/brain/workflow_scheduler.go.
use mathlib.Core.Option.{some-injective}
use ovek.Common.{
  ℕ, ◌≡◌, refl, sym, ap, subst, ◌∙◌, arith, inl, inr, String, Bool, true, false, not, ◌||◌, Option,
  none, some, List, [], ◌∷◌, ◌==◌, nat_eq, if◌then◌else◌, Bool-cases, Option-cases, eq_refl,
  nat_eq_refl, ◌&&◌,
}
use ovek.Store.{Db}
use ovek.Store.Sql.{select_row, count_where}
use ovek.Store.Rows.{select_row-count_zero}
use ovek.Workflows.{Workflow, list_scheduled_workflow_definitions}
use ovek.Scheduler.{
  CronJob, Cron, Entry, SchedulerState, has_key, workflow_schedule_key, remove_key, remove, add_key,
  replace, replace_all, start,
}
use ovek.Scheduler.InStep.{
  number, AddIsFresh, RemoveIsExact, IsInStep, job_for, job_of_workflow, IsScheduled,
  remove_key-IsInStep, remove_key-gone, insert-IsInStep,
}

module _ {C : Type 0} (cron : Cron C) (fresh : AddIsFresh cron) (exact : RemoveIsExact cron) where
  job_for-none :
      (key : String) (s : SchedulerState C)
      → count_where (has_key key) s.entries ≡ 0
      → job_for cron key s ≡ none
  job_for-none key s gone = rw (select_row-count_zero (has_key key) s.entries gone, job_for) refl

  job_for_added :
      (key : String) (entries : List Entry) (entry_id : ℕ) (c : C) (job : CronJob)
      → cron.job_of c entry_id ≡ some job
      → job_for cron key
          (record { entries = record { key = key; entry_id = entry_id } ∷ entries; cron = c })
        ≡ some job
  unfolding select_row
  job_for_added key entries entry_id c job h = rw (eq_refl key, select_row, job_for) h

  add_key-off :
      (key : String) (workflow : Workflow) (s : SchedulerState C)
      → (not workflow.enabled || workflow.schedule == "") ≡ true
      → add_key cron key workflow s ≡ (true, s)
  unfolding add_key
  add_key-off key workflow s off = rw (off, add_key) refl

  abbrev add_of : Workflow → SchedulerState C → Option ℕ × C
  add_of workflow s = cron.add_func workflow.schedule (job_of_workflow workflow) s.cron

  add_key-refused :
      (key : String) (workflow : Workflow) (s : SchedulerState C)
      → (not workflow.enabled || workflow.schedule == "") ≡ false
      → (add_of workflow s).0 ≡ none
      → add_key cron key workflow s ≡ (false, record s { cron = (add_of workflow s).1 })
  unfolding add_key
  add_key-refused key workflow s on none_added = rw (on, add_key, none_added) refl

  add_key-added :
      (key : String) (workflow : Workflow) (s : SchedulerState C) {entry_id : ℕ}
      → (not workflow.enabled || workflow.schedule == "") ≡ false
      → (add_of workflow s).0 ≡ some entry_id
      → add_key cron key workflow s ≡ (
        true,
        record {
          entries = record { key = key; entry_id = entry_id } ∷ s.entries;
          cron = (add_of workflow s).1;
        },
      )
  unfolding add_key
  add_key-added key workflow s on added = rw (on, add_key, added) refl

  refused-IsInStep :
      (workflow : Workflow) (s : SchedulerState C)
      → IsInStep cron s
      → (add_of workflow s).0 ≡ none
      → IsInStep cron (record s { cron = (add_of workflow s).1 })
  refused-IsInStep workflow s step none_added = record {
    keyed = step.keyed;
    counted = λ i. elim (fresh workflow.schedule (job_of_workflow workflow) s.cron i) [
      | inl (none_added', same) ↦ step.counted i ∙ ap number (sym same)
      | inr (id, added, free, job_of) ↦ cc (none_added, added)
    ];
  }

  added_job :
      (workflow : Workflow) (s : SchedulerState C) {entry_id : ℕ}
      → (add_of workflow s).0 ≡ some entry_id
      → cron.job_of (add_of workflow s).1 entry_id ≡ some (job_of_workflow workflow)
  added_job workflow s {entry_id} added =
      elim (fresh workflow.schedule (job_of_workflow workflow) s.cron entry_id) [
        | inl (none_added, same) ↦ cc (none_added, added)
        | inr (id, added', free, job_of) ↦
            let same = some-injective id entry_id (sym added' ∙ added) in
            job_of ∙ chosen (cron.job_of s.cron entry_id) id entry_id same
      ]
    where
      chosen :
          (o : Option CronJob) {job : CronJob} (a b : ℕ)
          → a ≡ b
          → (if nat_eq a b then some job else o) ≡ some job
      chosen o a b same = rw (same, nat_eq_refl b) refl

  off_choice :
      (job : CronJob) (a b : Bool)
      → (not a || b) ≡ true
      → none ≡ (if a && not b then some job else none)
  off_choice job false b h = refl
  off_choice job true true h = refl
  off_choice job true false h = cc

  on_choice :
      (job : CronJob) (a b : Bool)
      → (not a || b) ≡ false
      → some job ≡ (if a && not b then some job else none)
  on_choice job true false h = refl
  on_choice job true true h = cc
  on_choice job false b h = cc

  add_key-IsScheduled :
      (workflow : Workflow) (s : SchedulerState C)
      → IsInStep cron s
      → count_where (has_key (workflow_schedule_key workflow.project_name workflow.name)) s.entries
        ≡ 0
      → IsScheduled cron workflow
          (add_key cron (workflow_schedule_key workflow.project_name workflow.name) workflow s)
  add_key-IsScheduled workflow s step gone =
      let key = workflow_schedule_key workflow.project_name workflow.name in
      elim (Bool-cases (not workflow.enabled || workflow.schedule == "")) [
        | inl off ↦ subst (IsScheduled cron workflow) (sym (add_key-off key workflow s off)) (
          step,
          job_for-none key s gone
              ∙ off_choice (job_of_workflow workflow) workflow.enabled (workflow.schedule == "")
                  off,
        )
        | inr on ↦ (elim (Option-cases (add_of workflow s).0) [
          | inl none_added ↦
              subst (IsScheduled cron workflow) (sym (add_key-refused key workflow s on none_added))
                (
                  refused-IsInStep workflow s step none_added,
                  job_for-none key (record s { cron = (add_of workflow s).1 }) gone,
                )
          | inr (entry_id, added) ↦
              subst (IsScheduled cron workflow) (sym (add_key-added key workflow s on added)) (
                insert-IsInStep cron fresh exact key workflow.schedule (job_of_workflow workflow) s
                    entry_id step gone added,
                job_for_added key s.entries entry_id _ (job_of_workflow workflow)
                      (added_job workflow s added)
                    ∙ on_choice (job_of_workflow workflow) workflow.enabled
                        (workflow.schedule == "") on,
              )
        ])
      ]

  -- Of a cron that keeps its documentation: a replacement of a workflow leaves as many entries as
  -- jobs, one for each key at most, and the workflow's job is in the cron just when it is enabled,
  -- has a schedule and the schedule was accepted. So does a removal, after which it has no job.
  pub replace-IsScheduled :
      (workflow : Workflow) (s : SchedulerState C)
      → IsInStep cron s
      → IsScheduled cron workflow (replace cron workflow s)
        × IsInStep cron (remove cron workflow.project_name workflow.name s)
        × (job_for cron
              (workflow_schedule_key workflow.project_name workflow.name)
              (remove cron workflow.project_name workflow.name s)
            ≡ none)
  unfolding replace remove
  replace-IsScheduled workflow s step =
      let key = workflow_schedule_key workflow.project_name workflow.name in
      (
        add_key-IsScheduled workflow (remove_key cron key s)
            (remove_key-IsInStep cron fresh exact key s step)
            (remove_key-gone cron fresh exact key s),
        remove_key-IsInStep cron fresh exact key s step,
        job_for-none key _ (remove_key-gone cron fresh exact key s),
      )

  replace_all-IsInStep :
      (workflows : List Workflow) (s : SchedulerState C)
      → IsInStep cron s
      → IsInStep cron (replace_all cron workflows s).1
  unfolding replace_all
  replace_all-IsInStep [] s step = step
  replace_all-IsInStep (workflow ∷ workflows) s step =
      let next = (replace-IsScheduled workflow s step).0 in
      elim (Bool-cases (replace cron workflow s).0) [
        | inl e ↦
            rw (e, replace_all) (replace_all-IsInStep workflows (replace cron workflow s).1 next.0)
        | inr e ↦ rw (e, replace_all) next.0
      ]

  -- After a start on a cron without jobs.
  pub start-IsInStep :
      (db : Db) (c : C)
      → ((i : ℕ) → cron.job_of c i ≡ none)
      → IsInStep cron (start cron db (record { entries = []; cron = c })).1
  unfolding start count_where
  start-IsInStep db c empty =
      replace_all-IsInStep (list_scheduled_workflow_definitions db) _
        (record { keyed = λ key. omega arith; counted = λ i. rw (empty i) refl })
