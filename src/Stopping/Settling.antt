-- ===== src/Stopping/Settling.antt =====
-- settlePendingForSession of internal/server/settle.go: which cards are closed, and that a Stop which
-- meets no resistance succeeds.
use cubepilot.Prelude.{
  ◌≡◌, refl, ap, ◌∙◌, Bool, true, false, List, [], ◌∷◌, ◌++◌, Option, none, some, Text, utf8,
  contains, if◌then◌else◌, Elem, Elem-append_left, Elem-append_right, Elem-append_cases, ◌↔◌, inl,
  inr, arith, Bool-cases, if_elim, text_eq_iff,
}
use cubepilot.Approvals.{canonical_session_key, PendingApproval, Effect, resolved_event}
use cubepilot.Approvals.Handling.{settle_captured}
use cubepilot.Questions.{QuestionRecord, question_resolved, Published}
use cubepilot.Stopping.{
  Gateway, Act, closes_approval, cancels, drops_route, closes_question, close_approvals,
  close_question, is_unsettled, through, settle_question, settle_questions, settle_listed,
  settle_pending_for_session,
}
use cubepilot.Stopping.Closing.{
  settle_captured_iff, close_approvals_iff, close_approvals-cancels, close_approvals-question,
  close_question-cancels,
}

module _ {W : Type 0} (g : Gateway W) where
  -- What a closed card of a question tells: the gateway had accepted the cancel of that question, its
  -- route has ended, and the card is that of the session that was stopped.
  pub record IsCancelled (key : Text) (acts : List Act) (p : Published) : Type 0 where
    pub id : Text
    pub event : p ≡ question_resolved key id (utf8 "cancelled")
    pub cancelled : Elem (cancels id) acts
    pub dropped : Elem (drops_route id) acts
    pub before : W
    pub accepted : (g.cancel_question id before).0 ≡ true

  IsCancelled-weaken :
      (key : Text) (acts more : List Act) (p : Published)
      → IsCancelled key acts p
      → IsCancelled key (more ++ acts) p
  IsCancelled-weaken key acts more p c = record {
    id = c.id;
    event = c.event;
    cancelled = Elem-append_right (cancels c.id) more acts c.cancelled;
    dropped = Elem-append_right (drops_route c.id) more acts c.dropped;
    before = c.before;
    accepted = c.accepted;
  }

  IsCancelled-front :
      (key : Text) (acts more : List Act) (p : Published)
      → IsCancelled key acts p
      → IsCancelled key (acts ++ more) p
  IsCancelled-front key acts more p c = record {
    id = c.id;
    event = c.event;
    cancelled = Elem-append_left (cancels c.id) acts more c.cancelled;
    dropped = Elem-append_left (drops_route c.id) acts more c.dropped;
    before = c.before;
    accepted = c.accepted;
  }

  close_question-IsCancelled :
      (key id : Text) (b : Bool) (p : Published) (w : W)
      → (g.cancel_question id w).0 ≡ b
      → Elem (closes_question p) (close_question key id b)
      → IsCancelled key (close_question key id b) p
  unfolding close_question
  close_question-IsCancelled key id false p w a (inl q) = absurd (ground (arith, q))
  close_question-IsCancelled key id false p w a (inr m) = absurd m
  close_question-IsCancelled key id true p w a (inl q) = absurd (ground (arith, q))
  close_question-IsCancelled key id true p w a (inr (inl q)) = absurd (ground (arith, q))
  close_question-IsCancelled key id true p w a (inr (inr (inr m))) = absurd m
  close_question-IsCancelled key id true p w a (inr (inr (inl q))) = record {
    id = id;
    event = ground (arith, q);
    cancelled = inl refl;
    dropped = inr (inl refl);
    before = w;
    accepted = a;
  }

  settle_question-IsCancelled :
      (key id : Text) (p : Published) (w : W)
      → Elem (closes_question p) (settle_question g key id w).0
      → IsCancelled key (settle_question g key id w).0 p
  unfolding settle_question
  settle_question-IsCancelled key id p w =
      if_elim (λ (z : List Act × W). Elem (closes_question p) z.0 → IsCancelled key z.0 p)
        (g.connected w) _ _
        (λ _. close_question-IsCancelled key id (g.cancel_question id w).0 p w refl)
        (λ _ m. absurd m)

  settle_questions-IsCancelled :
      (key : Text) (recs : List QuestionRecord) (p : Published) (w : W)
      → Elem (closes_question p) (settle_questions g key recs w).0
      → IsCancelled key (settle_questions g key recs w).0 p
  unfolding settle_questions
  settle_questions-IsCancelled key [] p w m = absurd m
  settle_questions-IsCancelled key (rec ∷ recs) p w m =
      round (if is_unsettled key rec then settle_question g key rec.id w else ([], w))
        (if_elim (λ (z : List Act × W). Elem (closes_question p) z.0 → IsCancelled key z.0 p)
          (is_unsettled key rec) _ _ (λ _. settle_question-IsCancelled key rec.id p w)
          (λ _ h. absurd h))
        (settle_questions-IsCancelled key recs p) m
    where
      round :
          (here : List Act × W)
          → (Elem (closes_question p) here.0 → IsCancelled key here.0 p)
          → ((w' : W)
              → Elem (closes_question p) (settle_questions g key recs w').0
              → IsCancelled key (settle_questions g key recs w').0 p)
          → Elem (closes_question p) (here.0 ++ (settle_questions g key recs here.1).0)
          → IsCancelled key (here.0 ++ (settle_questions g key recs here.1).0) p
      round (acts, w') f ih m =
          elim (Elem-append_cases (closes_question p) acts (settle_questions g key recs w').0 m) [
            | inl h ↦ IsCancelled-front key acts (settle_questions g key recs w').0 p (f h)
            | inr r ↦ IsCancelled-weaken key (settle_questions g key recs w').0 acts p (ih w' r)
          ]

module _ {W : Type 0} (g : Gateway W) (up : (w : W) → g.connected w ≡ true) where
  settle_question-cancels :
      (key id i : Text) (w : W) → Elem (cancels i) (settle_question g key id w).0 ↔ (i ≡ id)
  unfolding settle_question
  settle_question-cancels key id i w =
      rw (up w) (close_question-cancels key id i (g.cancel_question id w).0)

  settle_questions-cancels :
      (key i : Text) (recs : List QuestionRecord) (w : W)
      → Elem (cancels i) (settle_questions g key recs w).0
        ↔ (rec : QuestionRecord) × Elem rec recs × (is_unsettled key rec ≡ true) × (i ≡ rec.id)
  unfolding settle_questions
  settle_questions-cancels key i [] w = (λ m. absurd m, λ (r, m, _, _). absurd m)
  settle_questions-cancels key i (rec ∷ recs) w = elim (Bool-cases (is_unsettled key rec)) [
    | inr f ↦ rw f (
      λ m. let (r, j, t, e) = (settle_questions-cancels key i recs w).0 m in (r, inr j, t, e),
      λ (r, m, t, e). elim m [
        | inl s ↦ absurd (ground (arith, t, f, ap (λ z. is_unsettled key z) s))
        | inr j ↦ (settle_questions-cancels key i recs w).1 (r, j, t, e)
      ],
    )
    | inl t ↦
        let here = settle_question g key rec.id w in
        let rest = (settle_questions g key recs here.1).0 in
        rw t (
          λ m. elim (Elem-append_cases (cancels i) here.0 rest m) [
            | inl h ↦ (rec, inl refl, t, (settle_question-cancels key rec.id i w).0 h)
            | inr n ↦
                let (r, j, u, e) = (settle_questions-cancels key i recs here.1).0 n in
                (r, inr j, u, e)
          ],
          λ (r, m, u, e). elim m [
            | inl s ↦
                Elem-append_left (cancels i) here.0 rest
                  ((settle_question-cancels key rec.id i w).1 (e ∙ ap (λ z. z.id) s))
            | inr j ↦
                Elem-append_right (cancels i) here.0 rest
                  ((settle_questions-cancels key i recs here.1).1 (r, j, u, e))
          ],
        )
  ]

close_question-approval :
    (key id : Text) (b : Bool) (e : Effect) → ¬ Elem (closes_approval e) (close_question key id b)
unfolding close_question
close_question-approval key id false e (inl q) = ground (arith, q)
close_question-approval key id false e (inr m) = m
close_question-approval key id true e (inl q) = ground (arith, q)
close_question-approval key id true e (inr (inl q)) = ground (arith, q)
close_question-approval key id true e (inr (inr (inl q))) = ground (arith, q)
close_question-approval key id true e (inr (inr (inr m))) = m

settle_questions-approval :
    {W : Type 0} (g : Gateway W) (key : Text) (recs : List QuestionRecord) (e : Effect) (w : W)
    → ¬ Elem (closes_approval e) (settle_questions g key recs w).0
unfolding settle_questions settle_question
settle_questions-approval g key [] e w m = m
settle_questions-approval {W} g key (rec ∷ recs) e w m =
    elim (Elem-append_cases (closes_approval e) here.0 (settle_questions g key recs here.1).0 m) [
      | inl h ↦
          if_elim {A = List Act × W} (λ z. ¬ Elem (closes_approval e) z.0) (is_unsettled key rec) _
            _
            (λ _.
              if_elim {A = List Act × W} (λ z. ¬ Elem (closes_approval e) z.0) (g.connected w) _ _
                (λ _. close_question-approval key rec.id (g.cancel_question rec.id w).0 e)
                (λ _ n. n))
            (λ _ n. n) h
      | inr r ↦ settle_questions-approval g key recs e here.1 r
    ]
  where
    here : List Act × W
    here = if is_unsettled key rec then settle_question g key rec.id w else ([], w)

-- A question of the session that is pending.
abbrev pub IsHeld : Text → QuestionRecord → Type 0
IsHeld key rec = (canonical_session_key rec.session_key ≡ key) × (rec.status ≡ utf8 "pending")

is_unsettled-IsHeld :
    (key : Text) (rec : QuestionRecord) → is_unsettled key rec ≡ true → IsHeld key rec
unfolding is_unsettled
is_unsettled-IsHeld key rec h = (
  (text_eq_iff (canonical_session_key rec.session_key) key).0 (ground (arith, h)),
  (text_eq_iff rec.status (utf8 "pending")).0 (ground (arith, h)),
)

IsHeld-is_unsettled :
    (key : Text) (rec : QuestionRecord) → IsHeld key rec → is_unsettled key rec ≡ true
unfolding is_unsettled
IsHeld-is_unsettled key rec (s, p) =
    rw
      (
        (text_eq_iff (canonical_session_key rec.session_key) key).1 s,
        (text_eq_iff rec.status (utf8 "pending")).1 p,
        is_unsettled,
      )
      refl

-- While the connection lasts and the gateway lists the questions `recs`, a Stop closes the cards of
-- exactly the approvals that were read before it and that no decision is being written for, without a
-- verdict; and it cancels exactly the questions of the session that are pending, be they shown or not.
pub settle_pending_for_session_lem :
    {W : Type 0} (g : Gateway W) (key i : Text) (captured : List PendingApproval)
    (recs : List QuestionRecord) (e : Effect) (w w' : W)
    → ((v : W) → g.connected v ≡ true)
    → g.list_questions w ≡ (some recs, w')
    → (Elem (closes_approval e) (settle_pending_for_session g key captured w).0
        ↔ (p : PendingApproval) × Elem p captured
          × (contains (g.deciding w) p.approval_id ≡ false)
          × (e ≡ resolved_event p.session_key p.approval_id none))
      × (Elem (cancels i) (settle_pending_for_session g key captured w).0
          ↔ (rec : QuestionRecord) × Elem rec recs × IsHeld key rec × (i ≡ rec.id))
unfolding settle_pending_for_session through settle_listed
settle_pending_for_session_lem g key i captured recs e w w' up l =
    let cards = settle_captured (g.deciding w) captured in
    let front = close_approvals cards in
    let rest = (settle_questions g key recs w').0 in
    let closed = settle_captured_iff (g.deciding w) captured e in
    let asked = settle_questions-cancels g up key i recs w' in
    rw (up w, l)
      (
        (
          λ m. elim (Elem-append_cases (closes_approval e) front rest m) [
            | inl h ↦ closed.0 ((close_approvals_iff cards e).0 h)
            | inr h ↦ absurd (settle_questions-approval g key recs e w' h)
          ],
          λ p.
              Elem-append_left (closes_approval e) front rest
                ((close_approvals_iff cards e).1 (closed.1 p)),
        ),
        (
          λ m. elim (Elem-append_cases (cancels i) front rest m) [
            | inl h ↦ absurd (close_approvals-cancels cards i h)
            | inr h ↦ let (r, j, u, q) = asked.0 h in (r, j, is_unsettled-IsHeld key r u, q)
          ],
          λ (r, j, u, q).
              Elem-append_right (cancels i) front rest
                (asked.1 (r, j, IsHeld-is_unsettled key r u, q)),
        ),
      )

-- The card of a question is closed by a Stop only once the gateway has accepted its cancel.
pub settle_pending_for_session-IsCancelled :
    {W : Type 0} (g : Gateway W) (key : Text) (captured : List PendingApproval) (p : Published)
    (w : W)
    → Elem (closes_question p) (settle_pending_for_session g key captured w).0
    → IsCancelled g key (settle_pending_for_session g key captured w).0 p
unfolding settle_pending_for_session settle_listed
settle_pending_for_session-IsCancelled {W} g key captured p w m =
    let cards = settle_captured (g.deciding w) captured in
    let rest : List Act × W = settle_listed g key (through g g.list_questions w) in
    elim (Elem-append_cases (closes_question p) (close_approvals cards) rest.0 m) [
      | inl h ↦ absurd (close_approvals-question cards p h)
      | inr h ↦
          IsCancelled-weaken g key rest.0 (close_approvals cards) p
            (of_list (through g g.list_questions w) h)
    ]
  where
    of_list :
        (z : Option (List QuestionRecord) × W)
        → Elem (closes_question p) (settle_listed g key z).0
        → IsCancelled g key (settle_listed g key z).0 p
    of_list (none, w') n = absurd n
    of_list (some recs, w') n = settle_questions-IsCancelled g key recs p w' n
