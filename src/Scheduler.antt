-- ===== src/Scheduler.antt =====
-- internal/scheduler/scheduler.go: firing scheduled tasks. The types are those of
-- internal/api/v1alpha1/task_types.go and taskrun_types.go.
-- What the API server, the runner and the clock answer during one reconcile is an `Answers`; the
-- calls that change something are the `Effect`s of the result, in order.
pub mod Firing
pub mod Due
pub mod Prompts
pub mod Reconciling
mod Samples
use cubepilot.Prelude.{
  ℕ, zero, suc, ◌+◌, ◌-◌, ◌%◌, ◌≡◌, Bool, true, false, not, ◌&&◌, ◌||◌, List, [], ◌∷◌, ◌++◌, Option,
  none, some, Text, utf8, text_eq, is_empty, has_prefix, trim_space, length, drop, leb, ltb, Table,
  if◌then◌else◌, ◌==◌,
}
use cubepilot.Schedule
use cubepilot.Schedule.{Calendar, minute, next_after}

-- TaskState; a spec that leaves it out is Enabled.
pub data TaskState : Type 0 where
  unset enabled paused : TaskState

-- TaskRunOutcome; `no_outcome` is the empty string.
pub data TaskRunOutcome : Type 0 where
  no_outcome success outcome_failed : TaskRunOutcome

pub record TaskSpec : Type 0 where
  pub template_ref : Text
  pub instruction : Text
  pub params : Table Text
  pub owner : Text
  pub cron : Text
  pub state : TaskState

pub record TaskStatus : Type 0 where
  pub last_run_time : Option ℕ
  pub last_status : TaskRunOutcome
  pub next_run_time : Option ℕ
  pub last_task_run_name : Text

pub record Task : Type 0 where
  pub name : Text
  pub uid : Text
  pub creation_time : ℕ
  pub display_name : Text
  pub manual_run : Option Text
  pub spec : TaskSpec
  pub status : TaskStatus

-- Task.Enabled
unfoldable pub is_enabled : Task → Bool
is_enabled t = elim t.spec.state [ paused ↦ false | _ ↦ true ]

pub data TaskTriggerKind : Type 0 where
  cron_trigger manual_trigger : TaskTriggerKind

-- The phase of a run; `no_phase` is that of an empty status.
pub data TaskRunPhase : Type 0 where
  no_phase pending running completed failed : TaskRunPhase

pub record TaskRunStatus : Type 0 where
  pub phase : TaskRunPhase
  pub started_at : Option ℕ
  pub finished_at : Option ℕ
  pub template_revision : Text
  pub skill_revision : Text
  pub content : Text
  pub error : Text

pub record TaskRun : Type 0 where
  pub run_name : Text
  pub run_display_name : Text
  pub run_owner : Text
  pub trigger : TaskTriggerKind
  pub creator_task : Text
  pub creator_uid : Text
  pub run_status : TaskRunStatus

abbrev pub empty_status : TaskRunStatus
empty_status = record {
  phase = no_phase;
  started_at = none;
  finished_at = none;
  template_revision = [];
  skill_revision = [];
  content = [];
  error = [];
}

pub record Template : Type 0 where
  pub template_instruction : Text
  pub template_skills : List Text
  pub revision : Text

-- Get: the object, IsNotFound, or another error.
pub data Lookup {ℓ} (A : Type ℓ) : Type ℓ where
  found : A → Lookup A
  missing : Lookup A
  unreadable : Lookup A

-- What the calls of one reconcile answer, each by its place in the source: `skip_recorded` tells
-- whether the status patch of a skipped run was accepted (the other patches are made and their errors
-- only logged), and `skip_reason` is the text that fmt.Errorf formats for a skip.
pub record Answers : Type 0 where
  pub now : ℕ
  pub instance_lookup : Lookup (Unit {0})
  pub template_lookup : Lookup Template
  pub skill_revision_of : Text → Option Text
  pub run_stamp : Text
  pub create_error : Option Text
  pub start_time : ℕ
  pub skip_recorded : Bool
  pub skip_reason : Text
  pub turn_content : Text
  pub turn_error : Option Text
  pub finish_time : ℕ
  pub last_run : ℕ

-- The calls that change something. A status patch is computed from a baseline.
pub data Effect : Type 0 where
  create_run : TaskRun → Effect
  patch_run : TaskRunStatus → TaskRunStatus → Effect
  patch_task : TaskStatus → TaskStatus → Effect
  run_task : Text → Text → Text → Effect
  clear_manual_run : Effect

-- The outcome of a step: the Task object in memory and the calls made. Whether a patch has reached the
-- stored Task is not told: the code logs a patch that fails and goes on with the object in memory.
pub record Outcome : Type 0 where
  pub task : Task
  pub effects : List Effect

-- strings.ReplaceAll, for a pattern that is not empty. Each round drops a byte at least.
unfoldable pub replace_loop : ℕ → Text → Text → Text → Text
replace_loop zero s old new = s
replace_loop (suc f) [] old new = []
replace_loop (suc f) (c ∷ s) old new =
    let hit = replace_loop f (drop (length old) (c ∷ s)) old new in
    let on = replace_loop f s old new in if has_prefix (c ∷ s) old then new ++ hit else c ∷ on

unfoldable pub replace_all : Text → Text → Text → Text
unfolding replace_loop
replace_all s old new = replace_loop (length s) s old new

-- renderTemplate, over the parameters in the order in which the map is walked.
unfoldable pub render_template : Text → Table Text → Text
render_template out [] = out
render_template out ((k, v) ∷ params) =
    render_template (replace_all out (utf8 "{{" ++ (k ++ utf8 "}}")) v) params

-- taskDisplayName
unfoldable pub task_display_name : Task → Text
task_display_name t = if is_empty t.display_name then t.name else t.display_name

-- NewTaskRun; `stamp` is the formatted time.
unfoldable pub new_task_run : Task → TaskTriggerKind → Text → TaskRun
unfolding task_display_name
new_task_run t kind stamp = record {
  run_name = t.name ++ b'-' ∷ stamp;
  run_display_name = task_display_name t;
  run_owner = t.spec.owner;
  trigger = kind;
  creator_task = t.name;
  creator_uid = t.uid;
  run_status = record empty_status { phase = pending };
}

-- nextDue
unfoldable pub next_due : Calendar → Task → ℕ → Option ℕ × Bool
next_due z t now = elim (Schedule.parse t.spec.cron) [
  | Schedule.err _ ↦ (none, false)
  | Schedule.ok c ↦
      let base : ℕ = elim t.status.last_run_time [ none ↦ t.creation_time | some r ↦ r ] in
      let next = next_after z c base in
      if not (next == 0) && leb next now then (some next, true) else (some next, false)
]

-- patchPaused
unfoldable pub patch_paused : Task → Outcome
patch_paused t = elim t.status.next_run_time [
  | none ↦ record { task = t; effects = [] }
  | some _ ↦
      let status' = record t.status { next_run_time = none } in
      record { task = record t { status = status' }; effects = patch_task t.status status' ∷ [] }
]

-- patchNextRun
abbrev set_next_run : Task → Option ℕ → Outcome
set_next_run t next =
    let status' = record t.status { next_run_time = next } in
    record { task = record t { status = status' }; effects = patch_task t.status status' ∷ [] }

unfoldable pub patch_next_run : Task → Option ℕ → Outcome
patch_next_run t none = elim t.status.next_run_time [
  | none ↦ record { task = t; effects = [] }
  | some _ ↦ set_next_run t none
]
patch_next_run t (some n) = elim t.status.next_run_time [
  | none ↦ set_next_run t (some n)
  | some m ↦
      if m == n - n % minute then record { task = t; effects = [] } else set_next_run t (some n)
]

-- strings.Join(revs, ", ")
unfoldable pub join : List Text → Text
join [] = []
join (r ∷ []) = r
join (r ∷ s ∷ rs) = r ++ (utf8 ", " ++ join (s ∷ rs))

-- The entries that skillRevisions joins.
unfoldable pub revisions : (Text → Option Text) → List Text → List Text
revisions rev [] = []
revisions rev (n ∷ ns) =
    let rest = revisions rev ns in elim (rev n) [ none ↦ rest | some r ↦ (n ++ b'@' ∷ r) ∷ rest ]

-- skillRevisions
unfoldable pub skill_revisions : (Text → Option Text) → List Text → Text
unfolding join revisions
skill_revisions rev ns = join (revisions rev ns)
