-- ===== src/Questions/Serving.antt =====
-- resolveQuestion of internal/server/questions.go and the two handlers of it.
use cubepilot.Prelude.{
  ℕ, Bool, true, false, not, ◌&&◌, ◌||◌, List, [], ◌∷◌, Option, none, some, Text, utf8, is_empty,
  text_eq, if◌then◌else◌, Table,
}
use cubepilot.Approvals.{canonical_session_key, has_session_key}
use cubepilot.Questions.{QuestionRecord, question_expired, subresource_key}

-- questionErrorStatus
unfoldable pub question_error_status : Text → ℕ
question_error_status reason =
    if text_eq reason (utf8 "QUESTION_NOT_FOUND")
    then 404
    else if text_eq reason (utf8 "QUESTION_ALREADY_TERMINAL")
    then 409
    else if text_eq reason (utf8 "QUESTION_INVALID_ANSWER")
    then 400
    else 502

-- GetQuestion's result. A gateway error carries the reason that ReasonOf finds in it.
pub data Found : Type 0 where
  no_channel : Found
  get_failed : Text → Found
  got : QuestionRecord → Found

-- The calls of the gateway that settle a question: the id, the answers, the user.
pub data Call : Type 0 where
  answered : Text → Table (List Text) → Text → Call
  cancelled : Text → Text → Call

-- What resolveQuestion finds: the gateway's record for a user and an id, the time, whether there is
-- still a connection for the second call, and the reason with which a call fails, if it does.
pub record Answers : Type 0 where
  pub found : Text → Text → Found
  pub now : ℕ
  pub connected : Bool
  pub refused : Call → Option Text

-- A request; `body` is what decodes, the answers being empty on the route that cancels.
pub record Request : Type 0 where
  pub is_post : Bool
  pub path : Text
  pub user : Text
  pub has_conns : Bool
  pub body : Option (Text × Table (List Text))

-- The status of a call that settles, on whether there is a connection and on the gateway's refusal.
unfoldable pub called : Bool → Option Text → Call → ℕ × List Call
unfolding question_error_status
called false o call = (question_error_status [], [])
called true none call = (200, call ∷ [])
called true (some reason) call = (question_error_status reason, call ∷ [])

-- resolveQuestion, its second call.
unfoldable pub settle : Answers → Bool → Text → Text → Table (List Text) → ℕ × List Call
unfolding called
settle a cancel user id answers =
    let call = if cancel then cancelled id user else answered id answers user in
    called a.connected (a.refused call) call

-- resolveQuestion, behind GetQuestion.
unfoldable pub settle_found :
    Answers → Bool → Text → Text → Text → Table (List Text) → Found → ℕ × List Call
unfolding question_error_status question_expired settle
settle_found a cancel user key id answers no_channel = (503, [])
settle_found a cancel user key id answers (get_failed reason) = (question_error_status reason, [])
settle_found a cancel user key id answers (got rec) =
    if not (text_eq (canonical_session_key rec.session_key) key)
    then (404, [])
    else if not (text_eq rec.status (utf8 "pending")) || question_expired a.now rec
    then (409, [])
    else settle a cancel user id answers

-- resolveQuestion, behind the decoding of the body.
unfoldable pub settle_body : Answers → Bool → Text → Text → Text → Table (List Text) → ℕ × List Call
unfolding settle_found
settle_body a cancel user key id answers =
    if is_empty id
    then (400, [])
    else if not cancel && (elim answers [ [] ↦ true | _ ∷ _ ↦ false ])
    then (400, [])
    else settle_found a cancel user key id answers (a.found user id)

-- resolveQuestion: the status, and the calls that settle.
unfoldable pub resolve_question : Answers → Text → Bool → Request → ℕ × List Call
unfolding subresource_key settle_body
resolve_question a suffix cancel r =
    let key = canonical_session_key (subresource_key r.path suffix) in
    if not r.is_post
    then (405, [])
    else if not (has_session_key key)
    then (400, [])
    else if not r.has_conns
    then (503, [])
    else elim r.body [
      | none ↦ (400, [])
      | some (id, answers) ↦ settle_body a cancel r.user key id answers
    ]

-- handleQuestion and handleQuestionCancel
unfoldable pub handle_question : Answers → Request → ℕ × List Call
unfolding resolve_question
handle_question a r = resolve_question a (utf8 "/questions/answer") false r

unfoldable pub handle_question_cancel : Answers → Request → ℕ × List Call
unfolding resolve_question
handle_question_cancel a r = resolve_question a (utf8 "/questions/cancel") true r
