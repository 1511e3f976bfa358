-- ===== src/Scheduler/Firing.antt =====
-- fire and Reconcile: when a task runs, with which prompt, and what is recorded of it.
use cubepilot.Prelude.{
  Bool, false, not, [], ◌∷◌, ◌++◌, none, some, Text, utf8, is_empty, trim_space, if◌then◌else◌,
}
use cubepilot.Schedule.{Calendar}
use cubepilot.Scheduler.{
  is_enabled, empty_status, render_template, new_task_run, next_due, patch_paused, patch_next_run,
  skill_revisions, Task, TaskTriggerKind, TaskRunStatus, Answers, Outcome, success, outcome_failed,
  cron_trigger, manual_trigger, running, completed, failed, found, missing, create_run, patch_run,
  patch_task, run_task, clear_manual_run,
}

-- recordSkippedRun
unfoldable pub record_skipped_run : Answers → Task → TaskTriggerKind → Text → Outcome
record_skipped_run a t kind reason =
    let run = new_task_run t kind a.run_stamp in
    let report = record empty_status {
      phase = failed;
      started_at = some a.start_time;
      finished_at = some a.start_time;
      error = reason;
    } in
    let status' = record t.status {
      last_run_time = some a.last_run;
      last_task_run_name = run.run_name;
      last_status = outcome_failed;
    } in
    elim a.create_error [
      | some _ ↦ record { task = t; effects = create_run run ∷ [] }
      | none ↦
          if a.skip_recorded
          then record {
            task = record t { status = status' };
            effects =
                create_run run ∷ patch_run empty_status report ∷ patch_task t.status status' ∷ [];
          }
          else record { task = t; effects = create_run run ∷ patch_run empty_status report ∷ [] }
    ]

-- The prompt of fire with the revisions of the template and of its skills.
pub record Prompt : Type 0 where
  pub text : Text
  pub template_rev : Text
  pub skill_rev : Text

abbrev inline : Task → Prompt
inline t = record { text = t.spec.instruction; template_rev = []; skill_rev = [] }

unfoldable pub resolve_prompt : Answers → Task → Prompt
resolve_prompt a t =
    let p : Prompt = if is_empty t.spec.template_ref then inline t else elim a.template_lookup [
      | found tpl ↦ record {
        text = render_template tpl.template_instruction t.spec.params;
        template_rev = tpl.revision;
        skill_rev = skill_revisions a.skill_revision_of tpl.template_skills;
      }
      | _ ↦ inline t
    ] in
    if is_empty (trim_space p.text) then record p { text = t.spec.instruction } else p

-- fire, once there is a prompt and the run is created.
unfoldable pub execute : Answers → Task → TaskTriggerKind → Prompt → Outcome
execute a t kind p =
    let run = new_task_run t kind a.run_stamp in
    let started = record empty_status {
      phase = running;
      started_at = some a.start_time;
      template_revision = p.template_rev;
      skill_revision = p.skill_rev;
    } in
    let named = record t.status { last_task_run_name = run.run_name } in
    let key = utf8 "task-" ++ (t.name ++ b'-' ∷ run.run_name) in
    let report = record started { finished_at = some a.finish_time; content = a.turn_content } in
    let finished : TaskRunStatus = elim a.turn_error [
      | none ↦ record report { phase = completed }
      | some e ↦ record report { phase = failed; error = e }
    ] in
    let last = record named {
      last_run_time = some a.last_run;
      last_status = elim a.turn_error [ none ↦ success | some _ ↦ outcome_failed ];
    } in
    record {
      task = record t { status = last };
      effects =
          create_run run
          ∷ patch_run empty_status started
          ∷ patch_task t.status named
          ∷ run_task t.spec.owner key p.text
          ∷ patch_run started finished
          ∷ patch_task t.status last
          ∷ [];
    }

-- fire
unfoldable pub fire : Answers → Task → TaskTriggerKind → Outcome
fire a t kind = elim a.instance_lookup [
  | missing ↦ record_skipped_run a t kind a.skip_reason
  | _ ↦
      let p = resolve_prompt a t in
      if is_empty (trim_space p.text)
      then record_skipped_run a t kind a.skip_reason
      else elim a.create_error [
        | some _ ↦ record { task = t; effects = create_run (new_task_run t kind a.run_stamp) ∷ [] }
        | none ↦ execute a t kind p
      ]
]

-- Whether the manual-run annotation is set.
unfoldable pub manual_asked : Task → Bool
manual_asked t = elim t.manual_run [ none ↦ false | some ts ↦ not (is_empty (trim_space ts)) ]

-- Reconcile, for a Task that was read: one call. The Task that the next call reads is the stored one, which
-- lacks what a failed patch should have written.
unfoldable pub reconcile : Calendar → Answers → Task → Outcome
reconcile z a t =
    if manual_asked t
    then (let o = fire a t manual_trigger in
        record {
          task = record o.task { manual_run = none };
          effects = o.effects ++ clear_manual_run ∷ [];
        })
    else if not (is_enabled t)
    then patch_paused t
    else if is_empty (trim_space t.spec.cron)
    then record { task = t; effects = [] }
    else (let (next, due) = next_due z t a.now in
        let o = patch_next_run t next in
        let f = fire a o.task cron_trigger in
        if due then record { task = f.task; effects = o.effects ++ f.effects } else o)
