-- ===== src/Scheduler/Prompts.antt =====
-- fire: what reaches the runner.
use cubepilot.Prelude.{
  ◌≡◌, refl, ap, ◌≢◌, ◌⊎◌, inl, inr, false, List, [], ◌∷◌, ◌++◌, Option, none, some, Text, utf8,
  is_empty, trim_space, Bool-cases, Option-cases, if◌then◌else◌,
}
use cubepilot.Scheduler.{
  Task, TaskRun, TaskTriggerKind, Answers, Effect, create_run, patch_run, patch_task, run_task,
  clear_manual_run, Outcome, Lookup, found, missing, unreadable, new_task_run,
}
use cubepilot.Scheduler.Firing.{resolve_prompt, execute, fire, record_skipped_run}

-- The turns among the calls.
unfoldable pub turns : List Effect → List (Text × Text × Text)
turns [] = []
turns (run_task o k p ∷ es) = (o, k, p) ∷ turns es
turns (create_run r ∷ es) = turns es
turns (patch_run a b ∷ es) = turns es
turns (patch_task a b ∷ es) = turns es
turns (clear_manual_run ∷ es) = turns es

-- The runs created among the calls.
unfoldable pub runs : List Effect → List TaskRun
runs [] = []
runs (create_run r ∷ es) = r ∷ runs es
runs (run_task o k p ∷ es) = runs es
runs (patch_run a b ∷ es) = runs es
runs (patch_task a b ∷ es) = runs es
runs (clear_manual_run ∷ es) = runs es

pub turns-append : (xs ys : List Effect) → turns (xs ++ ys) ≡ turns xs ++ turns ys
unfolding turns
turns-append [] ys = refl
turns-append (run_task o k p ∷ xs) ys = ap (λ z. (o, k, p) ∷ z) (turns-append xs ys)
turns-append (create_run r ∷ xs) ys = turns-append xs ys
turns-append (patch_run a b ∷ xs) ys = turns-append xs ys
turns-append (patch_task a b ∷ xs) ys = turns-append xs ys
turns-append (clear_manual_run ∷ xs) ys = turns-append xs ys

-- What is asked of a fire: the runs it creates, the turns it executes, and the task afterwards.
pub record FireSpec (a : Answers) (t : Task) (k : TaskTriggerKind) (o : Outcome) : Type 0 where
  pub one_run : runs o.effects ≡ new_task_run t k a.run_stamp ∷ []
  pub turn :
      (turns o.effects ≡ [])
      ⊎ ((key : Text) × (turns o.effects ≡ (t.spec.owner, key, (resolve_prompt a t).text) ∷ [])
          × (is_empty (trim_space (resolve_prompt a t).text) ≡ false)
          × (a.instance_lookup ≢ missing)
          × (a.create_error ≡ none)
          × (o.task.status.last_run_time ≡ some a.last_run)
          × (o.task.status.last_task_run_name ≡ (new_task_run t k a.run_stamp).run_name))
  pub same_spec : (o.task.spec ≡ t.spec) × (o.task.manual_run ≡ t.manual_run)

skipped :
    (a : Answers) (t : Task) (k : TaskTriggerKind) (reason : Text)
    → FireSpec a t k (record_skipped_run a t k reason)
unfolding turns runs record_skipped_run
skipped a t k reason = elim (Option-cases a.create_error) [
  | inr (e, p) ↦ rw p (record { one_run = refl; turn = inl refl; same_spec = (refl, refl) })
  | inl p ↦ rw p (elim (Bool-cases a.skip_recorded) [
    | inl q ↦ rw q (record { one_run = refl; turn = inl refl; same_spec = (refl, refl) })
    | inr q ↦ rw q (record { one_run = refl; turn = inl refl; same_spec = (refl, refl) })
  ])
]

-- Fire behind its two checks.
abbrev created_or_not : Answers → Task → TaskTriggerKind → Option Text → Outcome
created_or_not a t k e = elim e [
  | some _ ↦ record { task = t; effects = create_run (new_task_run t k a.run_stamp) ∷ [] }
  | none ↦ execute a t k (resolve_prompt a t)
]

abbrev prompted : Answers → Task → TaskTriggerKind → Outcome
prompted a t k =
    if is_empty (trim_space (resolve_prompt a t).text)
    then record_skipped_run a t k a.skip_reason
    else created_or_not a t k a.create_error

created_or_not-FireSpec :
    (a : Answers) (t : Task) (k : TaskTriggerKind) (e : Option Text)
    → a.instance_lookup ≢ missing
    → is_empty (trim_space (resolve_prompt a t).text) ≡ false
    → a.create_error ≡ e
    → FireSpec a t k (created_or_not a t k e)
unfolding turns runs execute
created_or_not-FireSpec a t k (some x) present b p = record {
  one_run = refl;
  turn = inl refl;
  same_spec = (refl, refl);
}
created_or_not-FireSpec a t k none present b p = record {
  one_run = refl;
  turn = inr (
    utf8 "task-" ++ (t.name ++ b'-' ∷ (new_task_run t k a.run_stamp).run_name),
    refl,
    b,
    present,
    p,
    refl,
    refl,
  );
  same_spec = (refl, refl);
}

prompted-FireSpec :
    (a : Answers) (t : Task) (k : TaskTriggerKind)
    → a.instance_lookup ≢ missing
    → FireSpec a t k (prompted a t k)
prompted-FireSpec a t k present =
    elim (Bool-cases (is_empty (trim_space (resolve_prompt a t).text))) [
      | inl b ↦ rw b (skipped a t k a.skip_reason)
      | inr b ↦ rw b (created_or_not-FireSpec a t k a.create_error present b refl)
    ]

-- A fire tries to create exactly one run, and either executes no turn, or executes one for the task's
-- owner, with a prompt that is not blank, where the owner's instance was not missing and the run was
-- created; then the task carries the run's name and time.
pub fire-FireSpec : (a : Answers) (t : Task) (k : TaskTriggerKind) → FireSpec a t k (fire a t k)
unfolding fire
fire-FireSpec a t k = by_lookup a.instance_lookup refl
  where
    by_lookup :
        (l : Lookup (Unit {0}))
        → a.instance_lookup ≡ l
        → FireSpec a t k
            (elim l [ missing ↦ record_skipped_run a t k a.skip_reason | _ ↦ prompted a t k ])
    by_lookup missing e = skipped a t k a.skip_reason
    by_lookup unreadable e = prompted-FireSpec a t k (λ p. cc)
    by_lookup (found x) e = prompted-FireSpec a t k (λ p. cc)
