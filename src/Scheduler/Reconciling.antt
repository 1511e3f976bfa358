-- ===== src/Scheduler/Reconciling.antt =====
-- Reconcile: which tasks run, and when they run again.
use cubepilot.Prelude.{
  ℕ, ◌≡◌, refl, ap, ◌∙◌, ◌≢◌, ◌⊎◌, inl, inr, Bool, true, false, [], ◌∷◌, ◌++◌, arith, Option, none,
  some, is_empty, trim_space, Bool-cases, if◌then◌else◌,
}
use cubepilot.Schedule.{Calendar}
use cubepilot.Scheduler.{
  Task, TaskTriggerKind, Answers, clear_manual_run, Outcome, patch_paused, patch_next_run, next_due,
  is_enabled, manual_trigger, cron_trigger,
}
use cubepilot.Scheduler.Firing.{fire, reconcile, manual_asked}
use cubepilot.Scheduler.Due.{base}
use cubepilot.Scheduler.Prompts.{turns, turns-append, fire-FireSpec}

-- A status patch of the next run time runs nothing and keeps all but that time.
abbrev KeepsRest : Task → Outcome → Type 0
KeepsRest t o =
    (turns o.effects ≡ [])
    × (o.task.spec ≡ t.spec)
    × (o.task.manual_run ≡ t.manual_run)
    × (o.task.status.last_run_time ≡ t.status.last_run_time)

patch_next_run-KeepsRest : (t : Task) (n : Option ℕ) → KeepsRest t (patch_next_run t n)
unfolding patch_next_run turns
patch_next_run-KeepsRest t none = ground arith
patch_next_run-KeepsRest t (some n) = ground arith

patch_paused-KeepsRest : (t : Task) → KeepsRest t (patch_paused t)
unfolding patch_paused turns
patch_paused-KeepsRest t = ground arith

-- The end of Reconcile, for a task that is enabled and has an expression.
abbrev on_schedule : Answers → Task → Option ℕ × Bool → Outcome
on_schedule a t (next, due) =
    let o = patch_next_run t next in
    let f = fire a o.task cron_trigger in
    if due then record { task = f.task; effects = o.effects ++ f.effects } else o

on_schedule-idle :
    (a : Answers) (t : Task) (v : Option ℕ × Bool)
    → v.1 ≡ false
    → turns (on_schedule a t v).effects ≡ []
on_schedule-idle a t (n, false) e = (patch_next_run-KeepsRest t n).0
on_schedule-idle a t (n, true) e = cc

turns-nil : turns [] ≡ []
unfolding turns
turns-nil = refl

turns-clear : turns (clear_manual_run ∷ []) ≡ []
unfolding turns
turns-clear = refl

reconcile_paused :
    (z : Calendar) (a : Answers) (t : Task)
    → manual_asked t ≡ false
    → is_enabled t ≡ false
    → turns (reconcile z a t).effects ≡ []
unfolding reconcile
reconcile_paused z a t m e = rw m (rw e (patch_paused-KeepsRest t).0)

reconcile_undue :
    (z : Calendar) (a : Answers) (t : Task)
    → manual_asked t ≡ false
    → (next_due z t a.now).1 ≡ false
    → turns (reconcile z a t).effects ≡ []
unfolding reconcile
reconcile_undue z a t m d = rw m (elim (Bool-cases (is_enabled t)) [
  | inr e ↦ rw e (patch_paused-KeepsRest t).0
  | inl e ↦ rw e (elim (Bool-cases (is_empty (trim_space t.spec.cron))) [
    | inl b ↦ rw b turns-nil
    | inr b ↦ rw b (on_schedule-idle a t (next_due z t a.now) d)
  ])
])

-- A turn runs only where a manual run was asked for, or the task is enabled and due.
pub reconcile-runs :
    (z : Calendar) (a : Answers) (t : Task)
    → turns (reconcile z a t).effects ≢ []
    → (manual_asked t ≡ true) ⊎ ((is_enabled t ≡ true) × ((next_due z t a.now).1 ≡ true))
reconcile-runs z a t h = elim (Bool-cases (manual_asked t)) [
  | inl m ↦ inl m
  | inr m ↦ elim (Bool-cases (is_enabled t)) [
    | inr e ↦ absurd (h (reconcile_paused z a t m e))
    | inl e ↦ elim (Bool-cases (next_due z t a.now).1) [
      | inl d ↦ inr (e, d)
      | inr d ↦ absurd (h (reconcile_undue z a t m d))
    ]
  ]
]

-- A task after a turn: the time is recorded, and no manual run is asked for any more.
abbrev Ran : Answers → Task → Outcome → Type 0
Ran a t o =
    (o.task.spec ≡ t.spec)
    × (manual_asked o.task ≡ false)
    × (o.task.status.last_run_time ≡ some a.last_run)

fire-last_run :
    (a : Answers) (t : Task) (k : TaskTriggerKind)
    → turns (fire a t k).effects ≢ []
    → (fire a t k).task.status.last_run_time ≡ some a.last_run
fire-last_run a t k h = elim (fire-FireSpec a t k).turn [
  | inl e ↦ absurd (h e)
  | inr (key, e, b, i, c, l, n) ↦ l
]

manual-cleared : (t : Task) → manual_asked (record t { manual_run = none }) ≡ false
unfolding manual_asked
manual-cleared t = refl

manual-same : (s t : Task) → s.manual_run ≡ t.manual_run → manual_asked s ≡ manual_asked t
unfolding manual_asked
manual-same s t e = rw e

on_schedule-Ran :
    (a : Answers) (t : Task) (v : Option ℕ × Bool)
    → manual_asked t ≡ false
    → turns (on_schedule a t v).effects ≢ []
    → Ran a t (on_schedule a t v)
on_schedule-Ran a t (n, false) m h = absurd (h (patch_next_run-KeepsRest t n).0)
on_schedule-Ran a t (n, true) m h =
    let o = patch_next_run t n in
    let (quiet, sp, mr, _) = patch_next_run-KeepsRest t n in
    let f = fire-FireSpec a o.task cron_trigger in
    (
      f.same_spec.0 ∙ sp,
      manual-same _ t (f.same_spec.1 ∙ mr) ∙ m,
      fire-last_run a o.task cron_trigger (λ e. h (
          turns-append o.effects (fire a o.task cron_trigger).effects
          ∙ ap (λ x. x ++ turns (fire a o.task cron_trigger).effects) quiet
          ∙ e)),
    )

reconcile-Ran :
    (z : Calendar) (a : Answers) (t : Task)
    → turns (reconcile z a t).effects ≢ []
    → Ran a t (reconcile z a t)
unfolding reconcile
reconcile-Ran z a t = elim (Bool-cases (manual_asked t)) [
  | inl m ↦ rw m (λ h. (
    (fire-FireSpec a t manual_trigger).same_spec.0,
    manual-cleared (fire a t manual_trigger).task,
    fire-last_run a t manual_trigger (λ e. h (
        turns-append (fire a t manual_trigger).effects (clear_manual_run ∷ [])
        ∙ ap (λ x. x ++ turns (clear_manual_run ∷ [])) e
        ∙ turns-clear)),
  ))
  | inr m ↦ rw m (elim (Bool-cases (is_enabled t)) [
    | inr e ↦ rw e (λ h. absurd (h (patch_paused-KeepsRest t).0))
    | inl e ↦ rw e (elim (Bool-cases (is_empty (trim_space t.spec.cron))) [
      | inl b ↦ rw b (λ h. absurd (h turns-nil))
      | inr b ↦ rw b (on_schedule-Ran a t (next_due z t a.now) m)
    ])
  ])
]

last_run-base : (t : Task) (r : ℕ) → t.status.last_run_time ≡ some r → base t ≡ r
last_run-base t r e = ground arith
