-- ===== src/Questions/Showing.antt =====
-- Which questions of internal/server/questions.go are past their deadline, and which a card can show.
use cubepilot.Prelude.{
  ℕ, ◌*◌, ◌≤◌, ◌<◌, ◌≡◌, ◌≢◌, refl, sym, ap, subst, ◌∙◌, true, false, List, [], ◌∷◌, Text, utf8,
  is_empty, text_eq_iff, Elem, arith, inl, inr, Bool-cases,
}
use cubepilot.Prelude.Int.{ℤ, pos, negsuc}
use cubepilot.Approvals.{canonical_session_key}
use cubepilot.Questions.{
  Question, QuestionRecord, question_expired, unsupported_question, unsupported_question_reason,
  is_open,
}

-- The gateway's deadline, in milliseconds and there only if positive, lies before `now`.
pub record IsPast (now : ℕ) (rec : QuestionRecord) : Type 0 where
  pub ms : ℕ
  pub deadline : rec.expires_at_ms ≡ pos ms
  pub set : 1 ≤ ms
  pub over : ms * 1000000 < now

pub question_expired-IsPast :
    (now : ℕ) (rec : QuestionRecord) → question_expired now rec ≡ true → IsPast now rec
unfolding question_expired
question_expired-IsPast now rec h = by_deadline rec.expires_at_ms refl
  where
    by_deadline : (z : ℤ) → rec.expires_at_ms ≡ z → IsPast now rec
    by_deadline (negsuc n) e = absurd (ground (arith, rw (e, question_expired) at h))
    by_deadline (pos ms) e =
        let k = rw (e, question_expired) at h in
        record { ms = ms; deadline = e; set = ground (arith, k); over = ground (arith, k) }

pub IsPast-question_expired :
    (now : ℕ) (rec : QuestionRecord) → IsPast now rec → question_expired now rec ≡ true
unfolding question_expired
IsPast-question_expired now rec p =
    rw (p.deadline, question_expired) (ground (arith, p.set, p.over))

-- A card can show the record: it has a question, and none of a secret.
pub record IsShowable (rec : QuestionRecord) : Type 0 where
  pub asks : rec.questions ≢ []
  pub plain :
      (q : Question) → Elem q rec.questions → (q.is_secret ≡ false) × (q.has_secret_store ≡ false)

unsupported_question-none :
    (qs : List Question) (q : Question)
    → unsupported_question qs ≡ []
    → Elem q qs
    → (q.is_secret ≡ false) × (q.has_secret_store ≡ false)
unfolding unsupported_question
unsupported_question-none (x ∷ qs) q h (inl e) = (
  ap (λ z. z.is_secret) e ∙ ground (arith, h),
  ap (λ z. z.has_secret_store) e ∙ ground (arith, h),
)
unsupported_question-none (x ∷ qs) q h (inr m) =
    unsupported_question-none qs q (ground (arith, h)) m
unsupported_question-none [] q h m = absurd m

none-unsupported_question :
    (qs : List Question)
    → ((q : Question) → Elem q qs → (q.is_secret ≡ false) × (q.has_secret_store ≡ false))
    → unsupported_question qs ≡ []
unfolding unsupported_question
none-unsupported_question [] f = refl
none-unsupported_question (x ∷ qs) f =
    let (s, t) = f x (inl refl) in
    rw (s, t, unsupported_question) (none-unsupported_question qs λ q m. f q (inr m))

is_empty-nil : (t : Text) → is_empty t ≡ true → t ≡ []
is_empty-nil [] h = refl
is_empty-nil (c ∷ t) h = absurd (ground (arith, h))

-- The question waits in the session, and a card can show it.
pub record IsWaiting (now : ℕ) (key : Text) (rec : QuestionRecord) : Type 0 where
  pub session : canonical_session_key rec.session_key ≡ key
  pub pending : rec.status ≡ utf8 "pending"
  pub in_time : ¬ IsPast now rec
  pub showable : IsShowable rec

showable :
    (rec : QuestionRecord) → is_empty (unsupported_question_reason rec) ≡ true → IsShowable rec
unfolding unsupported_question_reason
showable rec h = by_questions rec.questions refl
  where
    by_questions : (qs : List Question) → rec.questions ≡ qs → IsShowable rec
    by_questions [] e = absurd (ground (arith, rw (e, unsupported_question_reason) at h))
    by_questions (q ∷ qs) e =
        let k = is_empty-nil _ (rw (e, unsupported_question_reason) at h) in
        record {
          asks = λ n. ground (arith, sym e ∙ n);
          plain = λ p m. unsupported_question-none (q ∷ qs) p k (subst (Elem p) e m);
        }

shown : (rec : QuestionRecord) → IsShowable rec → is_empty (unsupported_question_reason rec) ≡ true
unfolding unsupported_question_reason
shown rec w = by_questions rec.questions refl
  where
    by_questions :
        (qs : List Question)
        → rec.questions ≡ qs
        → is_empty (unsupported_question_reason rec) ≡ true
    by_questions [] e = absurd (w.asks e)
    by_questions (q ∷ qs) e =
        rw (e, unsupported_question_reason)
          (ap (λ z. is_empty z)
            (none-unsupported_question (q ∷ qs) λ p m. w.plain p (subst (Elem p) (sym e) m)))

pub is_open-IsWaiting :
    (now : ℕ) (key : Text) (rec : QuestionRecord)
    → is_open now key rec ≡ true
    → IsWaiting now key rec
unfolding is_open
is_open-IsWaiting now key rec h = record {
  session = (text_eq_iff (canonical_session_key rec.session_key) key).0 (ground (arith, h));
  pending = (text_eq_iff rec.status (utf8 "pending")).0 (ground (arith, h));
  in_time = λ p. ground (arith, h, IsPast-question_expired now rec p);
  showable = showable rec (ground (arith, h));
}

pub IsWaiting-is_open :
    (now : ℕ) (key : Text) (rec : QuestionRecord)
    → IsWaiting now key rec
    → is_open now key rec ≡ true
unfolding is_open
IsWaiting-is_open now key rec w =
    let s = (text_eq_iff (canonical_session_key rec.session_key) key).1 w.session in
    let p = (text_eq_iff rec.status (utf8 "pending")).1 w.pending in
    rw (s, p, late, shown rec w.showable, is_open) refl
  where
    late : question_expired now rec ≡ false
    late = elim (Bool-cases (question_expired now rec)) [
      | inl t ↦ absurd (w.in_time (question_expired-IsPast now rec t))
      | inr f ↦ f
    ]
