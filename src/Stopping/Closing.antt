-- ===== src/Stopping/Closing.antt =====
-- Which effects settleCaptured and closeQuestion of internal/server/settle.go have.
use cubepilot.Prelude.{
  ◌≡◌, refl, ap, ◌∙◌, Bool, true, false, List, [], ◌∷◌, none, Text, contains, Elem, ◌↔◌, inl, inr,
  arith, Bool-cases,
}
use cubepilot.Approvals.{PendingApproval, Effect, resolved_event}
use cubepilot.Approvals.Handling.{settle_captured}
use cubepilot.Questions.{Published}
use cubepilot.Stopping.{closes_approval, cancels, closes_question, close_approvals, close_question}

pub settle_captured_iff :
    (deciding : List Text) (ps : List PendingApproval) (e : Effect)
    → Elem e (settle_captured deciding ps)
      ↔ (p : PendingApproval) × Elem p ps
        × (contains deciding p.approval_id ≡ false)
        × (e ≡ resolved_event p.session_key p.approval_id none)
unfolding settle_captured
settle_captured_iff deciding [] e = (λ m. absurd m, λ (p, m, _, _). absurd m)
settle_captured_iff deciding (x ∷ ps) e = elim (Bool-cases (contains deciding x.approval_id)) [
  | inl t ↦ rw t (
    λ m. let (p, i, f, q) = (settle_captured_iff deciding ps e).0 m in (p, inr i, f, q),
    λ (p, m, f, q). elim m [
      | inl s ↦ absurd (ground (arith, t, f, ap (λ z. contains deciding z.approval_id) s))
      | inr i ↦ (settle_captured_iff deciding ps e).1 (p, i, f, q)
    ],
  )
  | inr f ↦ rw f (
    λ m. elim m [
      | inl q ↦ (x, inl refl, f, q)
      | inr i ↦ let (p, j, h, q) = (settle_captured_iff deciding ps e).0 i in (p, inr j, h, q)
    ],
    λ (p, m, h, q). elim m [
      | inl s ↦ inl (q ∙ ap (λ z. resolved_event z.session_key z.approval_id none) s)
      | inr i ↦ inr ((settle_captured_iff deciding ps e).1 (p, i, h, q))
    ],
  )
]

pub close_approvals_iff :
    (es : List Effect) (e : Effect) → Elem (closes_approval e) (close_approvals es) ↔ Elem e es
unfolding close_approvals
close_approvals_iff [] e = (λ m. m, λ m. m)
close_approvals_iff (x ∷ es) e = (
  λ m. elim m [ inl q ↦ inl (cc) | inr i ↦ inr ((close_approvals_iff es e).0 i) ],
  λ m. elim m [ inl q ↦ inl (ap closes_approval q) | inr i ↦ inr ((close_approvals_iff es e).1 i) ],
)

pub close_approvals-cancels :
    (es : List Effect) (id : Text) → ¬ Elem (cancels id) (close_approvals es)
unfolding close_approvals
close_approvals-cancels [] id m = m
close_approvals-cancels (x ∷ es) id (inl q) = ground (arith, q)
close_approvals-cancels (x ∷ es) id (inr m) = close_approvals-cancels es id m

pub close_approvals-question :
    (es : List Effect) (p : Published) → ¬ Elem (closes_question p) (close_approvals es)
unfolding close_approvals
close_approvals-question [] p m = m
close_approvals-question (x ∷ es) p (inl q) = ground (arith, q)
close_approvals-question (x ∷ es) p (inr m) = close_approvals-question es p m

pub close_question-cancels :
    (key id i : Text) (b : Bool) → Elem (cancels i) (close_question key id b) ↔ (i ≡ id)
unfolding close_question
close_question-cancels key id i false =
    (λ m. elim m [ inl q ↦ ground (arith, q) | inr n ↦ absurd n ], λ e. inl (ap cancels e))
close_question-cancels key id i true = (
  λ m. elim m [
    | inl q ↦ ground (arith, q)
    | inr n ↦ elim n [
      | inl q ↦ absurd (ground (arith, q))
      | inr k ↦ elim k [ inl q ↦ absurd (ground (arith, q)) | inr l ↦ absurd l ]
    ]
  ],
  λ e. inl (ap cancels e),
)
