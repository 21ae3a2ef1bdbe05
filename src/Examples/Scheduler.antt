-- ===== src/Examples/Scheduler.antt =====
-- A cron that refuses one schedule, and a workflow replaced in it.
use ovek.Common.{
  ℕ, suc, ◌≡◌, refl, arith, String, Bool, true, false, Option, none, some, [], ◌==◌, nat_eq, ltb,
  if◌then◌else◌, inl, inr, Bool-cases,
}
use ovek.Store.Sql.{count_where}
use ovek.Workflows.{Workflow}
use ovek.Scheduler.{CronJob, Cron, SchedulerState, workflow_schedule_key, replace, remove}
use ovek.Scheduler.InStep.{number, AddIsFresh, RemoveIsExact, IsInStep, IsScheduled, job_for}
use ovek.Scheduler.Replacement.{replace-IsScheduled}

-- Ids are given in order, and one that was not given yet has no job.
record Slots : Type 0 where
  next : ℕ
  jobs : ℕ → Option CronJob

abbrev add_slot : String → CronJob → Slots → Option ℕ × Slots
add_slot schedule job c = if schedule == "bad" then (none, c) else (
  some c.next,
  record { next = suc c.next; jobs = λ i. if nat_eq c.next i then some job else c.jobs i },
)

abbrev slots : Cron Slots
slots = record {
  add_func = add_slot;
  remove = λ id c. record c { jobs = λ i. if nat_eq id i then none else c.jobs i };
  job_of = λ c i. if ltb i c.next then c.jobs i else none;
}

slots-AddIsFresh : AddIsFresh slots
slots-AddIsFresh schedule job c i = elim (Bool-cases (schedule == "bad")) [
  | inl e ↦ inl (rw e refl, rw e refl)
  | inr e ↦
      inr (c.next, rw e refl, not_yet c.next (c.jobs c.next), rw e (given c.next i (c.jobs i)))
]
  where
    not_yet : (n : ℕ) (o : Option CronJob) → (if ltb n n then o else none) ≡ none
    not_yet n o = ground arith

    given :
        (n i : ℕ) (o : Option CronJob)
        → (if ltb i (suc n) then (if nat_eq n i then some job else o) else none)
          ≡ (if nat_eq n i then some job else (if ltb i n then o else none))
    given n i o = ground arith

slots-RemoveIsExact : RemoveIsExact slots
slots-RemoveIsExact id c i = kept (ltb i c.next) (nat_eq id i) (c.jobs i)
  where
    kept :
        (a b : Bool) (o : Option CronJob)
        → (if a then (if b then none else o) else none)
          ≡ (if b then none else (if a then o else none))
    kept a b o = ground arith

abbrev empty_scheduler : SchedulerState Slots
empty_scheduler = record { entries = []; cron = record { next = 1; jobs = λ i. none } }

empty_scheduler-IsInStep : IsInStep slots empty_scheduler
unfolding count_where
empty_scheduler-IsInStep = record { keyed = λ key. omega arith; counted = λ i. no_job (ltb i 1) }
  where
    no_job : (b : Bool) → 0 ≡ number (if b then none else none)
    no_job true = refl
    no_job false = refl

abbrev hourly : Workflow
hourly = record {
  project_name = "demo";
  name = "hourly";
  source_image_ref = "demo:1";
  resolved_repo_digest = "";
  runtime_image_id = "";
  schedule = "0 * * * *";
  queue_cap = 64;
  enabled = true;
  created_at = "";
  updated_at = "";
  links = record { self = ""; runs = "" };
}

replace-IsScheduled_example :
    IsScheduled slots hourly (replace slots hourly empty_scheduler)
    × IsInStep slots (remove slots "demo" "hourly" empty_scheduler)
    × (job_for slots
          (workflow_schedule_key "demo" "hourly")
          (remove slots "demo" "hourly" empty_scheduler)
        ≡ none)
replace-IsScheduled_example =
    replace-IsScheduled slots slots-AddIsFresh slots-RemoveIsExact hourly empty_scheduler
      empty_scheduler-IsInStep
