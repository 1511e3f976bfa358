-- ===== src/Scheduler/Samples.antt =====
-- Tests of the scheduler, and its theorems at a concrete task.
use cubepilot.Prelude.{
  ℕ, ◌+◌, ◌*◌, ◌≡◌, refl, ◌≢◌, ◌↔◌, true, false, [], ◌∷◌, none, some, utf8, arith, ap, length,
  trim_space, has_prefix,
}
use cubepilot.Schedule.{minute, matches, has}
use cubepilot.Schedule.Next.{IsMinuteIn}
use cubepilot.Schedule.Samples.{clock, quarter, quarter_parsed}
use cubepilot.Scheduler.{
  Task, enabled, no_outcome, Answers, found, missing, cron_trigger, render_template, replace_all,
  next_due,
}
use cubepilot.Scheduler.Firing.{fire, resolve_prompt, execute, reconcile, manual_asked}
use cubepilot.Scheduler.Due.{due_iff, Fires}
use cubepilot.Scheduler.Prompts.{turns, FireSpec, fire-FireSpec}

abbrev inspect : Task
inspect = record {
  name = utf8 "inspect";
  uid = utf8 "u1";
  creation_time = 8 * 60 * minute + 20 * minute;
  display_name = [];
  manual_run = none;
  spec = record {
    template_ref = utf8 "daily";
    instruction = utf8 "look";
    params = [];
    owner = utf8 "bob";
    cron = utf8 " */15 8\t1 1 7 ";
    state = enabled;
  };
  status = record {
    last_run_time = none;
    last_status = no_outcome;
    next_run_time = none;
    last_task_run_name = [];
  };
}

abbrev answers : Answers
answers = record {
  now = 8 * 60 * minute + 31 * minute;
  instance_lookup = found tt;
  template_lookup = missing;
  skill_revision_of = λ n. none;
  run_stamp = utf8 "s1";
  create_error = none;
  start_time = 8 * 60 * minute + 31 * minute;
  skip_recorded = true;
  skip_reason = [];
  turn_content = utf8 "fine";
  turn_error = none;
  finish_time = 8 * 60 * minute + 32 * minute;
  last_run = 8 * 60 * minute + 32 * minute;
}

abbrev later : Answers
later = record answers { now = 8 * 60 * minute + 44 * minute }

renders :
    render_template (utf8 "check {{ns}} of {{ns}}") ((utf8 "ns", utf8 "prod") ∷ [])
    ≡ utf8 "check prod of prod"
unfolding render_template replace_all has_prefix
renders = refl

half_past : matches clock quarter (8 * 60 * minute + 30 * minute) ≡ true
unfolding matches has
half_past = refl

due_iff_example :
    ((next_due clock inspect answers.now).1 ≡ true)
    ↔ Fires clock inspect quarter quarter_parsed answers.now
due_iff_example = due_iff clock inspect quarter quarter_parsed answers.now

inspect_due : (next_due clock inspect answers.now).1 ≡ true
inspect_due =
    (due_iff clock inspect quarter quarter_parsed answers.now).1 (
      8 * 60 * minute + 30 * minute,
      (omega arith, omega arith, omega arith),
      omega arith,
      half_past,
    )

fire-FireSpec_example : FireSpec answers inspect cron_trigger (fire answers inspect cron_trigger)
fire-FireSpec_example = fire-FireSpec answers inspect cron_trigger

-- The task with a manual run asked for.
abbrev asked : Task
asked = record inspect { manual_run = some (utf8 "2026-09-01T08:31:00Z") }

asked-turns : length (turns (reconcile clock answers asked).effects) ≡ 1
unfolding reconcile manual_asked turns fire resolve_prompt execute trim_space
asked-turns = refl

asked_runs : turns (reconcile clock answers asked).effects ≢ []
asked_runs e = omega (arith, asked-turns, ap length e)

quiet_minutes : (x : ℕ) → IsMinuteIn answers.last_run later.now x → matches clock quarter x ≡ false
unfolding matches has
quiet_minutes x i = ground arith
