-- ===== src/Questions/Answering.antt =====
-- resolveQuestion of internal/server/questions.go: when a question is answered or cancelled.
use cubepilot.Prelude.{
  ℕ, ◌≡◌, ◌≢◌, refl, Bool, true, false, not, ◌&&◌, ◌||◌, List, [], ◌∷◌, Option, none, some, Text,
  utf8, is_empty, text_eq, text_eq_iff, text_eq-ne, if◌then◌else◌, Table, arith, inl, inr,
  Bool-cases, if_elim,
}
use cubepilot.Approvals.{canonical_session_key, has_session_key}
use cubepilot.Questions.{QuestionRecord, question_expired, subresource_key}
use cubepilot.Questions.Showing.{IsPast, question_expired-IsPast, IsPast-question_expired}
use cubepilot.Questions.Serving.{
  question_error_status, Found, no_channel, get_failed, got, Answers, Call, answered, cancelled,
  Request, called, settle, settle_found, settle_body, resolve_question,
}

-- What allows a question to be settled: the request is a POST with its id, and with answers unless it
-- cancels; the gateway has just given a record for that id, which is of the session, pending and not
-- past its deadline.
pub record IsOpen (a : Answers) (suffix : Text) (cancel : Bool) (r : Request) (id : Text)
    (answers : Table (List Text)) : Type 0 where
  pub rec : QuestionRecord
  pub post : r.is_post ≡ true
  pub body : r.body ≡ some (id, answers)
  pub named : is_empty id ≡ false
  pub filled : cancel ≡ false → answers ≢ []
  pub found : a.found r.user id ≡ got rec
  pub session :
      canonical_session_key rec.session_key ≡ canonical_session_key (subresource_key r.path suffix)
  pub pending : rec.status ≡ utf8 "pending"
  pub in_time : ¬ IsPast a.now rec

-- The call of the route.
abbrev pub call_of : Bool → Text → Text → Table (List Text) → Call
call_of cancel user id answers = if cancel then cancelled id user else answered id answers user

-- The status of a reason that the gateway gives.
pub data ReasonStatus (reason : Text) : ℕ → Type 0 where
  unknown : reason ≡ utf8 "QUESTION_NOT_FOUND" → ReasonStatus reason 404
  over : reason ≡ utf8 "QUESTION_ALREADY_TERMINAL" → ReasonStatus reason 409
  unfit : reason ≡ utf8 "QUESTION_INVALID_ANSWER" → ReasonStatus reason 400
  otherwise :
      reason ≢ utf8 "QUESTION_NOT_FOUND"
      → reason ≢ utf8 "QUESTION_ALREADY_TERMINAL"
      → reason ≢ utf8 "QUESTION_INVALID_ANSWER"
      → ReasonStatus reason 502

question_error_status-ReasonStatus :
    (reason : Text) → ReasonStatus reason (question_error_status reason)
unfolding question_error_status
question_error_status-ReasonStatus reason =
    if_elim (ReasonStatus reason) (text_eq reason (utf8 "QUESTION_NOT_FOUND")) _ _
      (λ e. unknown ((text_eq_iff reason _).0 e))
      (λ e.
        if_elim (ReasonStatus reason) (text_eq reason (utf8 "QUESTION_ALREADY_TERMINAL")) _ _
          (λ f. over ((text_eq_iff reason _).0 f))
          (λ f.
            if_elim (ReasonStatus reason) (text_eq reason (utf8 "QUESTION_INVALID_ANSWER")) _ _
              (λ g. unfit ((text_eq_iff reason _).0 g))
              (λ g. otherwise (text_eq-ne _ _ e) (text_eq-ne _ _ f) (text_eq-ne _ _ g))))

-- Why nothing is sent, with the status that tells it.
pub data Barred (a : Answers) (suffix : Text) (cancel : Bool) (r : Request) : ℕ → Type 0 where
  not_post : r.is_post ≡ false → Barred a suffix cancel r 405
  no_key :
      has_session_key (canonical_session_key (subresource_key r.path suffix)) ≡ false
      → Barred a suffix cancel r 400
  no_conns : r.has_conns ≡ false → Barred a suffix cancel r 503
  undecoded : r.body ≡ none → Barred a suffix cancel r 400
  unnamed :
      (answers : Table (List Text)) → r.body ≡ some ([], answers) → Barred a suffix cancel r 400
  unanswered : (id : Text) → cancel ≡ false → r.body ≡ some (id, []) → Barred a suffix cancel r 400
  unchanneled :
      (id : Text) (answers : Table (List Text))
      → r.body ≡ some (id, answers)
      → a.found r.user id ≡ no_channel
      → Barred a suffix cancel r 503
  unread :
      (id reason : Text) (answers : Table (List Text)) (status : ℕ)
      → r.body ≡ some (id, answers)
      → a.found r.user id ≡ get_failed reason
      → ReasonStatus reason status
      → Barred a suffix cancel r status
  elsewhere :
      (id : Text) (answers : Table (List Text)) (rec : QuestionRecord)
      → r.body ≡ some (id, answers)
      → a.found r.user id ≡ got rec
      → canonical_session_key rec.session_key
        ≢ canonical_session_key (subresource_key r.path suffix)
      → Barred a suffix cancel r 404
  ended :
      (id : Text) (answers : Table (List Text)) (rec : QuestionRecord)
      → r.body ≡ some (id, answers)
      → a.found r.user id ≡ got rec
      → rec.status ≢ utf8 "pending"
      → Barred a suffix cancel r 409
  too_late :
      (id : Text) (answers : Table (List Text)) (rec : QuestionRecord)
      → r.body ≡ some (id, answers)
      → a.found r.user id ≡ got rec
      → IsPast a.now rec
      → Barred a suffix cancel r 409
  cut_off : a.connected ≡ false → Barred a suffix cancel r 502

-- What a request can come to: nothing is sent, for a reason; or the one call of the route is sent for an
-- open question, and the gateway accepts or refuses it.
pub data AnswerSpec (a : Answers) (suffix : Text) (cancel : Bool) (r : Request)
    : ℕ × List Call → Type 0 where
  unsent : (s : ℕ) → Barred a suffix cancel r s → AnswerSpec a suffix cancel r (s, [])
  accepted :
      (id : Text) (answers : Table (List Text))
      → IsOpen a suffix cancel r id answers
      → a.connected ≡ true
      → a.refused (call_of cancel r.user id answers) ≡ none
      → AnswerSpec a suffix cancel r (200, call_of cancel r.user id answers ∷ [])
  refused :
      (id reason : Text) (answers : Table (List Text)) (status : ℕ)
      → IsOpen a suffix cancel r id answers
      → a.refused (call_of cancel r.user id answers) ≡ some reason
      → ReasonStatus reason status
      → AnswerSpec a suffix cancel r (status, call_of cancel r.user id answers ∷ [])

module _ (a : Answers) (suffix : Text) (cancel : Bool) (r : Request) where
  abbrev key : Text
  key = canonical_session_key (subresource_key r.path suffix)

  abbrev Spec : ℕ × List Call → Type 0
  Spec = AnswerSpec a suffix cancel r

  settle-AnswerSpec :
      (id : Text) (answers : Table (List Text))
      → IsOpen a suffix cancel r id answers
      → Spec (settle a cancel r.user id answers)
  unfolding settle called question_error_status text_eq
  settle-AnswerSpec id answers o =
      by_answer a.connected (a.refused (call_of cancel r.user id answers)) refl refl
    where
      by_answer :
          (c : Bool) (e : Option Text)
          → a.connected ≡ c
          → a.refused (call_of cancel r.user id answers) ≡ e
          → Spec (called c e (call_of cancel r.user id answers))
      by_answer false e p q = unsent 502 (cut_off p)
      by_answer true none p q = accepted id answers o p q
      by_answer true (some reason) p q =
          refused id reason answers _ o q (question_error_status-ReasonStatus reason)

  settle_found-AnswerSpec :
      (id : Text) (answers : Table (List Text)) (f : Found)
      → r.is_post ≡ true
      → r.body ≡ some (id, answers)
      → is_empty id ≡ false
      → (cancel ≡ false → answers ≢ [])
      → a.found r.user id ≡ f
      → Spec (settle_found a cancel r.user key id answers f)
  unfolding settle_found
  settle_found-AnswerSpec id answers no_channel p b n g e = unsent 503 (unchanneled id answers b e)
  settle_found-AnswerSpec id answers (get_failed reason) p b n g e =
      unsent (question_error_status reason)
        (unread id reason answers _ b e (question_error_status-ReasonStatus reason))
  settle_found-AnswerSpec id answers (got rec) p b n g e =
      let is_pending = text_eq rec.status (utf8 "pending") in
      if_elim Spec (not (text_eq (canonical_session_key rec.session_key) key)) _ _
        (λ s. unsent 404 (elsewhere id answers rec b e (text_eq-ne _ _ (ground (arith, s)))))
        (λ s.
          if_elim Spec (not is_pending || question_expired a.now rec) _ _
            (λ o. elim (Bool-cases is_pending) [
              | inl t ↦ unsent 409 (
                  too_late id answers rec b e
                    (question_expired-IsPast a.now rec (ground (arith, o, t))))
              | inr f ↦ unsent 409 (ended id answers rec b e (text_eq-ne _ _ f))
            ])
            (λ o. settle-AnswerSpec id answers (record {
              rec = rec;
              post = p;
              body = b;
              named = n;
              filled = g;
              found = e;
              session =
                  (text_eq_iff (canonical_session_key rec.session_key) key).0 (ground (arith, s));
              pending = (text_eq_iff rec.status (utf8 "pending")).0 (ground (arith, o));
              in_time = λ p. ground (arith, o, IsPast-question_expired a.now rec p);
            })))

  settle_body-AnswerSpec :
      (id : Text) (answers : Table (List Text))
      → r.is_post ≡ true
      → r.body ≡ some (id, answers)
      → Spec (settle_body a cancel r.user key id answers)
  unfolding settle_body
  settle_body-AnswerSpec [] answers p b = unsent 400 (unnamed answers b)
  settle_body-AnswerSpec (c ∷ id) [] p b =
      if_elim Spec (not cancel && true) _ _
        (λ h. unsent 400 (unanswered (c ∷ id) (ground (arith, h)) b))
        (λ h.
          settle_found-AnswerSpec (c ∷ id) [] (a.found r.user _) p b refl
            (λ f. absurd (ground (arith, h, f))) refl)
  settle_body-AnswerSpec (c ∷ id) (x ∷ xs) p b =
      if_elim Spec (not cancel && false) _ _ (λ h. absurd (ground (arith, h)))
        (λ _.
          settle_found-AnswerSpec (c ∷ id) (x ∷ xs) (a.found r.user _) p b refl
            (λ f e. ground (arith, e)) refl)

-- Whatever a client posts to the answer or the cancel route, and whatever the gateway answers: at most
-- one call is sent, the route's own, and only for a question that the gateway has just given for that
-- id, of that session, pending and within its deadline; an answer is never empty. The status is 200
-- exactly where the gateway has accepted the call, and else tells which of the conditions was not met or
-- why the gateway refused.
pub resolve_question-AnswerSpec :
    (a : Answers) (suffix : Text) (cancel : Bool) (r : Request)
    → AnswerSpec a suffix cancel r (resolve_question a suffix cancel r)
unfolding resolve_question
resolve_question-AnswerSpec a suffix cancel r =
    let key = canonical_session_key (subresource_key r.path suffix) in
    let Spec : ℕ × List Call → Type 0 = AnswerSpec a suffix cancel r in
    if_elim Spec (not r.is_post) _ _ (λ h. unsent 405 (not_post (ground (arith, h))))
      (λ p.
        if_elim Spec (not (has_session_key key)) _ _ (λ h. unsent 400 (no_key (ground (arith, h))))
          (λ _.
            if_elim Spec (not r.has_conns) _ _ (λ h. unsent 503 (no_conns (ground (arith, h))))
              (λ _. of_body r.body refl (ground (arith, p)))))
  where
    of_body :
        (b : Option (Text × Table (List Text)))
        → r.body ≡ b
        → r.is_post ≡ true
        → AnswerSpec a suffix cancel r (elim b [
          | none ↦ (400, [])
          | some (id, answers) ↦
              settle_body a cancel r.user
                (canonical_session_key (subresource_key r.path suffix))
                id
                answers
        ])
    of_body none e p = unsent 400 (undecoded e)
    of_body (some (id, answers)) e p = settle_body-AnswerSpec a suffix cancel r id answers p e
