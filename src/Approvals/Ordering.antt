-- ===== src/Approvals/Ordering.antt =====
-- Pending of internal/server/approvals.go: which approvals a session has, and in which order.
use cubepilot.Prelude.{
  ◌≡◌, refl, ap, sym, ◌∙◌, Bool, true, false, not, ◌&&◌, List, [], ◌∷◌, some, Text, ◌↔◌,
  text_eq_cases, Elem, filter, arith, inl, inr,
}
use cubepilot.Prelude.Int.{ℤ, pos, negsuc}
use cubepilot.Prelude.Sorting.{IsSorted, sort-IsSorted, Elem-sort, Elem-sort_inv, filter-sort}
use cubepilot.Approvals.{
  ApprovalRequested, PendingApproval, canonical_session_key, project_approval, int_ltb,
  created_before, of_session, pending, find_approval,
}

int_ltb_asym : (a b : ℤ) → int_ltb a b ≡ true → int_ltb b a ≡ false
unfolding int_ltb
int_ltb_asym (pos m) (pos n) h = ground arith
int_ltb_asym (pos m) (negsuc n) h = ground arith
int_ltb_asym (negsuc m) (pos n) h = refl
int_ltb_asym (negsuc m) (negsuc n) h = ground arith

int_ltb_trans : (a b c : ℤ) → int_ltb c b ≡ false → int_ltb b a ≡ false → int_ltb c a ≡ false
unfolding int_ltb
int_ltb_trans (pos l) (pos m) (pos n) h k = ground arith
int_ltb_trans (pos l) (pos m) (negsuc n) h k = absurd (ground arith)
int_ltb_trans (pos l) (negsuc m) (pos n) h k = absurd (ground arith)
int_ltb_trans (pos l) (negsuc m) (negsuc n) h k = absurd (ground arith)
int_ltb_trans (negsuc l) (pos m) (pos n) h k = refl
int_ltb_trans (negsuc l) (pos m) (negsuc n) h k = absurd (ground arith)
int_ltb_trans (negsuc l) (negsuc m) (pos n) h k = refl
int_ltb_trans (negsuc l) (negsuc m) (negsuc n) h k = ground arith

-- Whether an approval was created at the instant.
unfoldable pub is_created_at : ℤ → PendingApproval → Bool
is_created_at t p = not (int_ltb p.created_at_ms t) && not (int_ltb t p.created_at_ms)

is_created_at_even :
    (t : ℤ) (a b : PendingApproval)
    → is_created_at t a ≡ true
    → is_created_at t b ≡ true
    → created_before a b ≡ false
unfolding is_created_at created_before
is_created_at_even t a b h k =
    int_ltb_trans b.created_at_ms t a.created_at_ms (ground arith) (ground arith)

-- Of the session's own records, exactly those, projected.
of_session_iff :
    (key : Text) (evs : List ApprovalRequested) (p : PendingApproval)
    → Elem p (of_session key evs)
      ↔ (ev : ApprovalRequested) × Elem ev evs
        × (canonical_session_key ev.session_key ≡ key)
        × (p ≡ project_approval ev)
unfolding of_session
of_session_iff key [] p = (λ h. absurd h, λ (ev, m, _, _). absurd m)
of_session_iff key (x ∷ evs) p = elim (text_eq_cases (canonical_session_key x.session_key) key) [
  | inl (e, t) ↦ rw t (
    λ h. elim h [
      | inl q ↦ (x, inl refl, e, q)
      | inr m ↦ let (ev, n, k, q) = (of_session_iff key evs p).0 m in (ev, inr n, k, q)
    ],
    λ (ev, m, k, q). elim m [
      | inl s ↦ inl (q ∙ ap project_approval s)
      | inr n ↦ inr ((of_session_iff key evs p).1 (ev, n, k, q))
    ],
  )
  | inr (n, f) ↦ rw f (
    λ m. let (ev, i, k, q) = (of_session_iff key evs p).0 m in (ev, inr i, k, q),
    λ (ev, m, k, q). elim m [
      | inl s ↦ absurd (n (ap (λ z. canonical_session_key z.session_key) (sym s) ∙ k))
      | inr i ↦ (of_session_iff key evs p).1 (ev, i, k, q)
    ],
  )
]

-- The pending approvals of a session are exactly the gateway's records whose session key, in canonical
-- form, is the session's. None comes before one that was created earlier, and those created at one
-- instant have the order in which the gateway lists them.
pub pending_lem :
    (key : Text) (evs : List ApprovalRequested)
    → ((p : PendingApproval)
        → Elem p (pending key evs)
          ↔ (ev : ApprovalRequested) × Elem ev evs
            × (canonical_session_key ev.session_key ≡ key)
            × (p ≡ project_approval ev))
      × IsSorted created_before (pending key evs)
      × ((t : ℤ)
          → filter (is_created_at t) (pending key evs)
            ≡ filter (is_created_at t) (of_session key evs))
unfolding pending created_before
pending_lem key evs = (
  λ p. (
    λ h. (of_session_iff key evs p).0 (Elem-sort_inv created_before p (of_session key evs) h),
    λ h. Elem-sort created_before p (of_session key evs) ((of_session_iff key evs p).1 h),
  ),
  sort-IsSorted created_before (λ a b. int_ltb_asym a.created_at_ms b.created_at_ms)
      (λ a b c. int_ltb_trans a.created_at_ms b.created_at_ms c.created_at_ms) (of_session key evs),
  λ t. filter-sort created_before (is_created_at t) (is_created_at_even t) (of_session key evs),
)

-- What is found has the id, and is in the list; where one has it, something is found.
pub find_approval-found :
    (ps : List PendingApproval) (id : Text) (p : PendingApproval)
    → find_approval ps id ≡ some p
    → Elem p ps × (p.approval_id ≡ id)
unfolding find_approval
find_approval-found [] id p h = absurd (grind (arith, h))
find_approval-found (q ∷ ps) id p h = elim (text_eq_cases q.approval_id id) [
  | inl (e, t) ↦
      let s : q ≡ p = grind (arith, rw t at h) in (inl (sym s), ap (λ z. z.approval_id) (sym s) ∙ e)
  | inr (_, f) ↦ let (m, e) = find_approval-found ps id p (rw f at h) in (inr m, e)
]

pub find_approval_total :
    (ps : List PendingApproval) (p : PendingApproval)
    → Elem p ps
    → (q : PendingApproval) × (find_approval ps p.approval_id ≡ some q)
unfolding find_approval
find_approval_total [] p m = absurd m
find_approval_total (x ∷ ps) p m = elim (text_eq_cases x.approval_id p.approval_id) [
  | inl (_, t) ↦ (x, rw t refl)
  | inr (n, f) ↦ elim m [
    | inl e ↦ absurd (n (ap (λ z. z.approval_id) (sym e)))
    | inr i ↦ let (q, e) = find_approval_total ps p i in (q, rw f e)
  ]
]
