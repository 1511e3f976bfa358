-- ===== src/Scheduler/Due.antt =====
-- nextDue: when a task is due.
use cubepilot.Prelude.{
  ℕ, ◌≤◌, ◌<◌, ◌≡◌, ◌≢◌, ◌⊎◌, ◌↔◌, inl, inr, Bool, true, false, not, ◌&&◌, arith, Option, none,
  some, leb, if◌then◌else◌, ◌==◌,
}
use cubepilot.Schedule
use cubepilot.Schedule.{Cron, Calendar, matches, minute, next_after}
use cubepilot.Schedule.Next.{IsNext, IsMinuteIn, horizon, next_after-IsNext}
use cubepilot.Scheduler.{Task, next_due}

-- The instant that the next run is counted from: the last run, or the task's creation.
abbrev pub base : Task → ℕ
base t = elim t.status.last_run_time [ none ↦ t.creation_time | some r ↦ r ]

abbrev verdict : ℕ → ℕ → Option ℕ × Bool
verdict r now = if not (r == 0) && leb r now then (some r, true) else (some r, false)

verdict_iff : (r now : ℕ) → ((verdict r now).1 ≡ true) ↔ ((r ≢ 0) × (r ≤ now))
verdict_iff r now = ground arith

module _ (z : Calendar) (t : Task) (c : Cron)
    (parsed : Schedule.parse t.spec.cron ≡ Schedule.ok c) where
  next_due_lem : (now : ℕ) → next_due z t now ≡ verdict (next_after z c (base t)) now
  unfolding next_due
  next_due_lem now = rw (parsed, next_due)

  -- A matching minute among those searched.
  abbrev pub Fires : ℕ → Type 0
  Fires now =
      (x : ℕ) × IsMinuteIn (base t) (horizon (base t)) x × (x ≤ now) × (matches z c x ≡ true)

  Fires-iff : (now r : ℕ) → IsNext z c (base t) r → ((r ≢ 0) × (r ≤ now)) ↔ Fires now
  Fires-iff now r (inl (e, h)) = ((λ (n, l). absurd (n e)), λ (x, i, l, m). absurd (cc (h x i, m)))
  Fires-iff now r (inr (i, m, h)) = (
    (λ (n, l). (r, i, l, m)),
    λ (x, j, l, m'). elim (le_or_lt r x) [
      | inl le ↦ (omega arith, omega arith)
      | inr lt ↦ absurd (cc (h x (j.0, omega arith, j.2), m'))
    ],
  )
    where
      le_or_lt : (a b : ℕ) → (a ≤ b) ⊎ (b < a)
      le_or_lt a b = grind arith

  -- A task with a valid expression is due exactly if some matching minute lies after its last run
  -- (or its creation), within the 366 days that are searched, and not after now: a minute that the
  -- last run has covered does not fire again, and a minute missed meanwhile still does.
  pub due_iff : (now : ℕ) → ((next_due z t now).1 ≡ true) ↔ Fires now
  due_iff now =
      let v = verdict_iff (next_after z c (base t)) now in
      let f = Fires-iff now (next_after z c (base t)) (next_after-IsNext z c (base t)) in
      rw next_due_lem ((λ e. f.0 (v.0 e)), λ w. v.1 (f.1 w))
