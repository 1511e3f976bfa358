-- ===== src/Hub/Streams.antt =====
-- An open stream is the registered one of its session, whatever the others do.
use cubepilot.Prelude.{
  ℕ, ◌≡◌, refl, sym, ap, ◌∙◌, Bool, true, false, none, some, Text, text_eq_cases, text_eq_refl,
  lookup, lookup-insert, lookup-delete, Elem, ◌==◌, ==_iff, Bool-cases, Option-cases, inl, inr,
  arith,
}
use cubepilot.Hub.{
  Hub, has_closed, open_stream, mark_closed, remove, publish_to, Step, opens, marks, removes,
  Reachable, starts, steps,
}

-- A stream that was opened for a session and whose flag is not set.
abbrev pub IsLive : Hub → ℕ → Text → Type 0
IsLive h s key = Elem (s, key) h.streams × (has_closed h.closed s ≡ false)

-- Every live stream is the active one of its session.
IsRegistered : Hub → Type 0
IsRegistered h = (s : ℕ) (key : Text) → IsLive h s key → lookup key h.active ≡ some s

some-injective : {a b : ℕ} → some a ≡ some b → a ≡ b
some-injective p = cc

open_stream-IsRegistered :
    (key : Text) (h : Hub) → IsRegistered h → IsRegistered (open_stream key h).1
unfolding open_stream IsRegistered
open_stream-IsRegistered key h i = elim (Option-cases (lookup key h.active)) [
  | inr (c, e) ↦ rw (e, open_stream) i
  | inl e ↦
      rw (e, open_stream)
        (λ s k (m, f). rw (lookup-insert key k h.next h.active) (elim m [
          | inl q ↦
              rw (ap (λ (z : ℕ × Text). z.1) q, text_eq_refl key)
                (ap (λ (z : ℕ × Text). some z.0) (sym q))
          | inr m' ↦ elim (text_eq_cases key k) [
            | inl (q, t) ↦ absurd (grind (arith, e, i s k (m', f), ap (λ z. lookup z h.active) q))
            | inr (_, t) ↦ rw t (i s k (m', f))
          ]
        ]))
]

mark_closed-IsRegistered : (s : ℕ) (h : Hub) → IsRegistered h → IsRegistered (mark_closed s h)
unfolding mark_closed IsRegistered has_closed
mark_closed-IsRegistered s h i = elim (Bool-cases (has_closed h.closed s)) [
  | inl c ↦ rw (c, mark_closed) i
  | inr c ↦ rw (c, mark_closed) (λ t k (m, f). i t k (m, grind (arith, f)))
]

remove-IsRegistered :
    (key : Text) (s : ℕ) (h : Hub)
    → has_closed h.closed s ≡ true
    → IsRegistered h
    → IsRegistered (remove key s h)
unfolding remove IsRegistered
remove-IsRegistered key s h c i = elim (Option-cases (lookup key h.active)) [
  | inl e ↦ rw (e, remove) i
  | inr (cur, e) ↦ elim (Bool-cases (cur == s)) [
    | inr b ↦ rw (e, remove, b) i
    | inl b ↦
        rw (e, remove, b)
          (λ t k (m, f). rw (lookup-delete key k h.active) (elim (text_eq_cases key k) [
            | inr (_, x) ↦ rw x (i t k (m, f))
            | inl (q, x) ↦
                let same : cur ≡ t =
                  some-injective (sym e ∙ ap (λ z. lookup z h.active) q ∙ i t k (m, f)) in
                absurd
                  (grind (arith, c, f, ap (has_closed h.closed) (sym ((==_iff cur s).0 b) ∙ same)))
          ]))
  ]
]

Step-IsRegistered : {h h' : Hub} → Step h h' → IsRegistered h → IsRegistered h'
Step-IsRegistered (opens h key) i = open_stream-IsRegistered key h i
Step-IsRegistered (marks h s _ _) i = mark_closed-IsRegistered s h i
Step-IsRegistered (removes h s key _ c) i = remove-IsRegistered key s h c i

Reachable-IsRegistered : {h : Hub} → Reachable h → IsRegistered h
unfolding IsRegistered
Reachable-IsRegistered starts s key (m, _) = absurd m
Reachable-IsRegistered (steps r t) s key l = Step-IsRegistered t (Reachable-IsRegistered r) s key l

-- In every reachable state, an open stream is the registered one of its session: the removal by an
-- earlier stream's Close never drops it, no session has two open streams, a publication to its session
-- goes to it, and another Open of the session is refused.
pub IsLive-registered :
    (h : Hub) (s : ℕ) (key : Text)
    → Reachable h
    → IsLive h s key
    → (lookup key h.active ≡ some s)
      × ((t : ℕ) → IsLive h t key → t ≡ s)
      × ((written : Bool) → publish_to written key h ≡ written)
      × ((open_stream key h).0 ≡ none)
unfolding IsRegistered open_stream publish_to
IsLive-registered h s key r l =
    let e = Reachable-IsRegistered r s key l in
    (
      e,
      λ t m. some-injective (sym (Reachable-IsRegistered r t key m) ∙ e),
      λ w. rw (e, publish_to, l.1) refl,
      rw (e, open_stream) refl,
    )
