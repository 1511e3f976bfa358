-- ===== src/Questions/Routing.antt =====
-- questionRoutes of internal/server/questions.go over a history of messages: which stream a resolution
-- is published on.
use cubepilot.Prelude.{
  ℕ, ◌≡◌, refl, ap, Bool, not, ◌&&◌, List, [], ◌∷◌, Option, none, some, Text, is_empty, text_eq,
  text_eq_refl, if◌then◌else◌, Table, lookup, lookup-insert, lookup-delete, arith, inl, inr,
  Bool-cases, Option-cases, text_eq_cases,
}
use cubepilot.Questions.{
  QuestionRecord, put, take, Published, question_resolved, relay_question_requested,
  relay_question_resolved, unsupported_question_reason, is_open, open_questions,
}

-- What changes the routes: a broadcast of a question, one of its end, a read of a session's open
-- questions, a question that a Stop has cancelled.
pub data Message : Type 0 where
  requested : ℕ → QuestionRecord → Message
  resolved : Text → Text → Message
  restored : ℕ → Text → List QuestionRecord → Message
  stopped : Text → Message

unfoldable pub handle : Message → Table Text → Table Text
handle (requested now rec) m = (relay_question_requested now rec m).1
handle (resolved id status) m = (relay_question_resolved id status m).1
handle (restored now key recs) m = (open_questions now key recs m).1
handle (stopped id) m = (take id m).1

-- The routes after a history, whose newest message comes first.
unfoldable pub routes : List Message → Table Text
unfolding handle
routes [] = []
routes (e ∷ past) = handle e (routes past)

-- The session that a record puts its question in, if the record is taken up.
abbrev pub claim : Bool → Text → QuestionRecord → Option Text → Option Text
claim taken id rec before =
    if taken && not (is_empty rec.id) && not (is_empty rec.session_key) && text_eq rec.id id
    then some rec.session_key
    else before

unfoldable pub restored_owner : ℕ → Text → Text → List QuestionRecord → Option Text → Option Text
restored_owner now key id [] before = before
restored_owner now key id (rec ∷ recs) before =
    restored_owner now key id recs (claim (is_open now key rec) id rec before)

-- The session of a question as its history tells: that of the newest record of it that was relayed or
-- restored, unless the question has ended since.
unfoldable pub owner : Text → List Message → Option Text
unfolding restored_owner
owner id [] = none
owner id (requested now rec ∷ past) =
    claim (is_empty (unsupported_question_reason rec)) id rec (owner id past)
owner id (resolved i status ∷ past) = if text_eq i id then none else owner id past
owner id (restored now key recs ∷ past) = restored_owner now key id recs (owner id past)
owner id (stopped i ∷ past) = if text_eq i id then none else owner id past

pub lookup-put :
    (id k key : Text) (m : Table Text)
    → lookup id (put k key m)
      ≡ (if not (is_empty k) && not (is_empty key) && text_eq k id then some key else lookup id m)
unfolding put
lookup-put id [] key m = refl
lookup-put id (c ∷ k) [] m = refl
lookup-put id (c ∷ k) (d ∷ key) m = lookup-insert (c ∷ k) id (d ∷ key) m

pub lookup-take :
    (id k : Text) (m : Table Text)
    → lookup id (take k m).1 ≡ (if text_eq k id then none else lookup id m)
unfolding take
lookup-take id k m = elim (Option-cases (lookup k m)) [
  | inl o ↦ elim (text_eq_cases k id) [
    | inl (e, t) ↦ rw (t, o, take) (rw (← e) o)
    | inr (_, f) ↦ rw (f, o, take) refl
  ]
  | inr (key, o) ↦ rw (o, take) (lookup-delete k id m)
]

-- What is published of a question's end, if its session is known.
abbrev pub told : Text → Text → Option Text → List Published
told id status o = elim o [ none ↦ [] | some key ↦ question_resolved key id status ∷ [] ]

pub relay_question_resolved_lem :
    (id status : Text) (m : Table Text)
    → relay_question_resolved id status m ≡ (told id status (lookup id m), (take id m).1)
unfolding relay_question_resolved take
relay_question_resolved_lem id status m = elim (Option-cases (lookup id m)) [
  | inl o ↦ rw (o, relay_question_resolved, take) refl
  | inr (key, o) ↦
      rw (o, relay_question_resolved)
        (ap (λ z. (question_resolved key id status ∷ [], z)) (rw (o, take) refl))
]

lookup-relay_question_resolved :
    (id k status : Text) (m : Table Text)
    → lookup id (relay_question_resolved k status m).1
      ≡ (if text_eq k id then none else lookup id m)
lookup-relay_question_resolved id k status m =
    rw (relay_question_resolved_lem k status m) (lookup-take id k m)

lookup-relay_question_requested :
    (id : Text) (now : ℕ) (rec : QuestionRecord) (m : Table Text)
    → lookup id (relay_question_requested now rec m).1
      ≡ claim (is_empty (unsupported_question_reason rec)) id rec (lookup id m)
unfolding relay_question_requested
lookup-relay_question_requested id now rec m =
    ground (arith, lookup-put id rec.id rec.session_key m)

pub lookup-open_questions :
    (id : Text) (now : ℕ) (key : Text) (recs : List QuestionRecord) (m : Table Text)
    → lookup id (open_questions now key recs m).1 ≡ restored_owner now key id recs (lookup id m)
unfolding open_questions restored_owner
lookup-open_questions id now key [] m = refl
lookup-open_questions id now key (rec ∷ recs) m = elim (Bool-cases (is_open now key rec)) [
  | inl t ↦ rw t (
      rw (← lookup-put id rec.id rec.session_key m)
        (lookup-open_questions id now key recs (put rec.id rec.session_key m)))
  | inr f ↦ rw f (lookup-open_questions id now key recs m)
]

-- The table holds, for every id, the session that the history tells.
pub lookup-routes : (id : Text) (past : List Message) → lookup id (routes past) ≡ owner id past
unfolding routes owner lookup
lookup-routes id [] = refl
lookup-routes id (requested now rec ∷ past) =
    rw (← lookup-routes id past) (lookup-relay_question_requested id now rec (routes past))
lookup-routes id (resolved i status ∷ past) =
    rw (← lookup-routes id past) (lookup-relay_question_resolved id i status (routes past))
lookup-routes id (restored now key recs ∷ past) =
    rw (← lookup-routes id past) (lookup-open_questions id now key recs (routes past))
lookup-routes id (stopped i ∷ past) = rw (← lookup-routes id past) (lookup-take id i (routes past))

-- After any history of relays, restores and stops, the end of a question is published exactly once, on
-- the stream of the session that the newest relayed or restored record of that question names, and
-- nowhere if no record was taken up since the question last ended. A second broadcast of the end is
-- published nowhere.
pub relay_question_resolved-owner :
    (id status again : Text) (past : List Message)
    → ((relay_question_resolved id status (routes past)).0 ≡ told id status (owner id past))
      × ((relay_question_resolved id again (routes (resolved id status ∷ past))).0 ≡ [])
unfolding owner
relay_question_resolved-owner id status again past = (
  rw (relay_question_resolved_lem id status (routes past), lookup-routes id past) refl,
  rw
      (
        relay_question_resolved_lem id again (routes (resolved id status ∷ past)),
        lookup-routes id (resolved id status ∷ past),
        text_eq_refl id,
      )
      refl,
)
