-- ===== src/Scheduler.antt =====
-- The scheduler of workflows: cmd/brain/workflow_scheduler.go. The cron library is a parameter, and
-- a job of it is the project and the workflow whose runs it creates. Locks and times are left out.
pub mod InStep
pub mod Replacement
use ovek.Common.{
  ℕ, String, Bool, true, false, not, ◌||◌, Option, none, some, List, [], ◌∷◌, ◌==◌, text_append,
  nat_eq, if◌then◌else◌,
}
use ovek.Store.{Db, WorkflowRunStatus, run_status_eq}
use ovek.Store.Sql.{ok, err, select_row, delete_where}
use ovek.Workflows.{Workflow, list_scheduled_workflow_definitions}
use ovek.WorkflowQueue.{create_scheduled_workflow_run}

pub record CronJob : Type 0 where
  pub project_name : String
  pub workflow_name : String

-- cron.Cron: AddFunc, which may refuse a schedule, and Remove, with what Entry tells of an id.
pub record Cron (C : Type 0) : Type 0 where
  pub add_func : String → CronJob → C → Option ℕ × C
  pub remove : ℕ → C → C
  pub job_of : C → ℕ → Option CronJob

-- A pair of the map `entries`.
pub record Entry : Type 0 where
  pub key : String
  pub entry_id : ℕ

pub record SchedulerState (C : Type 0) : Type 0 where
  pub entries : List Entry
  pub cron : C

abbrev pub has_key : String → Entry → Bool
has_key key entry = entry.key == key

unfoldable pub workflow_schedule_key : String → String → String
workflow_schedule_key project_name workflow_name =
    text_append project_name (text_append "/" workflow_name)

-- The function that a workflow is scheduled with: the run to enqueue, if any, and the database.
unfoldable pub run_job : String → String → CronJob → Db → Option String × Db
run_job new_id clock job db =
    elim (create_scheduled_workflow_run new_id clock job.project_name job.workflow_name db) [
      | err failure ↦ (none, db)
      | ok (run, db') ↦
          (if run_status_eq run.status WorkflowRunStatus.queued then some run.id else none, db')
    ]

module _ {C : Type 0} (cron : Cron C) where
  unfoldable pub remove_key : String → SchedulerState C → SchedulerState C
  remove_key key s = elim (select_row (has_key key) s.entries) [
    | none ↦ s
    | some entry ↦ record {
      entries = delete_where (has_key key) s.entries;
      cron = cron.remove entry.entry_id s.cron;
    }
  ]

  unfoldable pub remove : String → String → SchedulerState C → SchedulerState C
  remove project_name workflow_name s =
      remove_key (workflow_schedule_key project_name workflow_name) s

  -- Replace after the removal: whether the schedule was accepted.
  unfoldable pub add_key : String → Workflow → SchedulerState C → Bool × SchedulerState C
  add_key key workflow s =
      if not workflow.enabled || workflow.schedule == ""
      then (true, s)
      else let (added, cron') =
          cron.add_func workflow.schedule
            (record { project_name = workflow.project_name; workflow_name = workflow.name })
            s.cron in
        elim added [
          | none ↦ (false, record s { cron = cron' })
          | some entry_id ↦ (
            true,
            record {
              entries = record { key = key; entry_id = entry_id } ∷ s.entries;
              cron = cron';
            },
          )
        ]

  unfoldable pub replace : Workflow → SchedulerState C → Bool × SchedulerState C
  replace workflow s =
      let key = workflow_schedule_key workflow.project_name workflow.name in
      add_key key workflow (remove_key key s)

  -- The loop of Start.
  unfoldable pub replace_all : List Workflow → SchedulerState C → Bool × SchedulerState C
  replace_all [] s = (true, s)
  replace_all (workflow ∷ workflows) s =
      let (accepted, s') = replace workflow s in
      elim accepted [ true ↦ replace_all workflows s' | false ↦ (false, s') ]

  unfoldable pub start : Db → SchedulerState C → Bool × SchedulerState C
  start db s = replace_all (list_scheduled_workflow_definitions db) s
