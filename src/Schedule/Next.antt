-- ===== src/Schedule/Next.antt =====
-- NextAfter: the next minute at which an expression fires.
use cubepilot.Prelude.{
  ℕ, zero, suc, ◌+◌, ◌-◌, ◌*◌, ◌/◌, ◌%◌, ◌≤◌, ◌<◌, ◌≡◌, refl, ◌⊎◌, inl, inr, true, false, arith,
  Bool-cases,
}
use cubepilot.Schedule.{Cron, Calendar, matches, minute, scan, rounds, next_after}

-- The loop's outcome: no round matched, or the first that did.
abbrev Scanned : Calendar → Cron → ℕ → ℕ → ℕ → Type 0
Scanned z c f x r =
    ((r ≡ 0) × ((j : ℕ) → j < f → matches z c (x + j * minute) ≡ false))
    ⊎ ((i : ℕ) × (i < f)
        × (r ≡ x + i * minute)
        × (matches z c r ≡ true)
        × ((j : ℕ) → j < i → matches z c (x + j * minute) ≡ false))

below :
    (z : Calendar) (c : Cron) (x n : ℕ)
    → matches z c x ≡ false
    → ((j : ℕ) → j < n → matches z c (x + minute + j * minute) ≡ false)
    → (j : ℕ) → j < suc n
    → matches z c (x + j * minute) ≡ false
below z c x n f h zero l = let e : x + 0 * minute ≡ x = omega arith in rw e f
below z c x n f h (suc j) l =
    let e : x + suc j * minute ≡ x + minute + j * minute = omega arith in rw e (h j (omega arith))

scan_lem : (f x : ℕ) (z : Calendar) (c : Cron) → Scanned z c f x (scan f z c x)
unfolding scan
scan_lem zero x z c = inl (refl, λ j h. absurd (omega arith))
scan_lem (suc f) x z c = elim (Bool-cases (matches z c x)) [
  | inl t ↦ rw t (inr (0, omega arith, omega arith, t, λ j h. absurd (omega arith)))
  | inr w ↦ rw w (elim (scan_lem f (x + minute) z c) [
    | inl (e, h) ↦ inl (e, below z c x f w h)
    | inr (i, l, e, m, h) ↦ inr (suc i, omega arith, omega (arith, e), m, below z c x i w h)
  ])
]

-- The minutes after `t` up to `b`.
abbrev pub IsMinuteIn : ℕ → ℕ → ℕ → Type 0
IsMinuteIn t b x = (t < x) × (x ≤ b) × (x % minute ≡ 0)

-- The end of the minutes that NextAfter looks at.
abbrev pub horizon : ℕ → ℕ
horizon t = t - t % minute + rounds * minute

-- What NextAfter promises for the minutes after `t`: 0 if none up to the horizon matches, and else
-- the first that does.
abbrev pub IsNext : Calendar → Cron → ℕ → ℕ → Type 0
IsNext z c t r =
    ((r ≡ 0) × ((x : ℕ) → IsMinuteIn t (horizon t) x → matches z c x ≡ false))
    ⊎ (IsMinuteIn t (horizon t) r
        × (matches z c r ≡ true)
        × ((x : ℕ) → IsMinuteIn t (r - 1) x → matches z c x ≡ false))

index :
    (t x : ℕ)
    → t < x
    → x % minute ≡ 0
    → x ≡ t - t % minute + minute + ((x - (t - t % minute + minute)) / minute) * minute
index t x l a = omega arith

-- NextAfter gives the first matching minute after `t`, strictly after it even where `t` is itself a
-- matching minute, and the zero time exactly if no minute of the next 366 days matches.
pub next_after-IsNext : (z : Calendar) (c : Cron) (t : ℕ) → IsNext z c t (next_after z c t)
unfolding next_after
next_after-IsNext z c t = elim (scan_lem rounds start z c) [
  | inl (e, h) ↦ inl (
    e,
    λ x (l, u, a). rw (index t x l a) (h ((x - start) / minute) (omega (arith, index t x l a))),
  )
  | inr (i, l, e, m, h) ↦ inr (
    (omega (arith, e), omega (arith, e), omega (arith, e)),
    m,
    λ x (p, u, a). rw (index t x p a) (h ((x - start) / minute) (omega (arith, index t x p a, e))),
  )
]
  where
    start : ℕ
    start = t - t % minute + minute
