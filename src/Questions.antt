-- ===== src/Questions.antt =====
-- internal/server/questions.go: the questions that a turn waits on, from the gateway's broadcasts to
-- the answer. The gateway's records are those of internal/openclaw/ws/frames.go.
pub mod Serving
pub mod Showing
pub mod Routing
pub mod Answering
pub mod Restoring
mod Samples
use mathlib.Core.List.{reverse}
use cubepilot.Prelude.{
  ℕ, suc, ◌+◌, ◌-◌, ◌*◌, ◌/◌, ◌^◌, ◌≡◌, Bool, true, false, not, ◌&&◌, ◌||◌, List, [], ◌∷◌, ◌++◌,
  Option, none, some, Text, utf8, is_empty, text_eq, has_prefix, length, drop, ltb, leb,
  if◌then◌else◌, Table, lookup, insert, delete, map, ◌==◌,
}
use cubepilot.Prelude.Int.{ℤ, pos, negsuc}
use cubepilot.Approvals.{canonical_session_key, has_session_key}

-- QuestionOption
pub record QuestionOption : Type 0 where
  pub label : Text
  pub description : Text

-- Question; of SecretStore only the length is read, and whether it is empty is what is kept.
pub record Question : Type 0 where
  pub question_id : Text
  pub header : Text
  pub question : Text
  pub options : List QuestionOption
  pub multi_select : Bool
  pub is_other : Bool
  pub is_secret : Bool
  pub has_secret_store : Bool

-- QuestionRecord, the fields that are read.
pub record QuestionRecord : Type 0 where
  pub id : Text
  pub questions : List Question
  pub session_key : Text
  pub expires_at_ms : ℤ
  pub status : Text

-- QuestionItem of internal/runtime/contracts.go.
pub record QuestionItem : Type 0 where
  pub question_id : Text
  pub header : Text
  pub question : Text
  pub options : List QuestionOption
  pub multi_select : Bool
  pub is_other : Bool

-- QuestionPrompt of internal/runtime/contracts.go.
pub record QuestionPrompt : Type 0 where
  pub questions : List QuestionItem
  pub timeout_seconds : ℕ

-- questionRoutes.put
unfoldable pub put : Text → Text → Table Text → Table Text
put id session_key m = if is_empty id || is_empty session_key then m else insert id session_key m

-- questionRoutes.take
unfoldable pub take : Text → Table Text → Option Text × Table Text
take id m = elim (lookup id m) [ none ↦ (none, m) | some key ↦ (some key, delete id m) ]

-- unsupportedQuestionReason, its loop.
unfoldable pub unsupported_question : List Question → Text
unsupported_question [] = []
unsupported_question (q ∷ qs) =
    let rest = unsupported_question qs in
    if q.is_secret
    then utf8 "secret question"
    else if q.has_secret_store
    then utf8 "secret-store question"
    else rest

-- unsupportedQuestionReason
unfoldable pub unsupported_question_reason : QuestionRecord → Text
unfolding unsupported_question
unsupported_question_reason rec = elim rec.questions [
  | [] ↦ utf8 "record carries no questions"
  | q ∷ qs ↦ unsupported_question (q ∷ qs)
]

-- questionExpired; `now` is in nanoseconds of Unix time.
unfoldable pub question_expired : ℕ → QuestionRecord → Bool
question_expired now rec = elim rec.expires_at_ms [
  | negsuc _ ↦ false
  | pos ms ↦ ltb 0 ms && ltb (ms * 1000000) now
]

-- time.Until, which does not go past the greatest duration.
unfoldable pub until : ℕ → ℕ → ℕ
until now deadline = if leb (2 ^ 63) (deadline - now) then 2 ^ 63 - 1 else deadline - now

-- remainingSeconds
unfoldable pub remaining_seconds : ℕ → ℤ → ℕ
unfolding until
remaining_seconds now (negsuc _) = 0
remaining_seconds now (pos ms) = if ms == 0 then 0 else until now (ms * 1000000) / 1000000000

-- questionPrompt, its loop body.
unfoldable pub question_item : Question → QuestionItem
question_item q = record {
  question_id = q.question_id;
  header = q.header;
  question = q.question;
  options = q.options;
  multi_select = q.multi_select;
  is_other = q.is_other;
}

-- questionPrompt
unfoldable pub question_prompt : ℕ → QuestionRecord → QuestionPrompt
unfolding question_item remaining_seconds
question_prompt now rec = record {
  questions = map question_item rec.questions;
  timeout_seconds = remaining_seconds now rec.expires_at_ms;
}

-- What the hub is given to publish on a session's stream.
pub data Published : Type 0 where
  question_pending : Text → Text → QuestionPrompt → Published
  question_resolved : Text → Text → Text → Published

-- relayQuestionRequested
unfoldable pub relay_question_requested :
    ℕ → QuestionRecord → Table Text → List Published × Table Text
unfolding put question_prompt unsupported_question_reason
relay_question_requested now rec m =
    if is_empty rec.session_key
    then ([], m)
    else if not (is_empty (unsupported_question_reason rec))
    then ([], m)
    else (
      question_pending rec.session_key rec.id (question_prompt now rec) ∷ [],
      put rec.id rec.session_key m,
    )

-- relayQuestionResolved, on the id and the status of the broadcast.
unfoldable pub relay_question_resolved : Text → Text → Table Text → List Published × Table Text
unfolding take
relay_question_resolved id status m = elim (lookup id m) [
  | none ↦ ([], m)
  | some key ↦ (question_resolved key id status ∷ [], (take id m).1)
]

-- strings.TrimPrefix and strings.TrimSuffix
unfoldable pub trim_prefix : Text → Text → Text
trim_prefix s p = if has_prefix s p then drop (length p) s else s

unfoldable pub trim_suffix : Text → Text → Text
unfolding trim_prefix
trim_suffix s p = reverse (trim_prefix (reverse s) (reverse p))

unfoldable pub drop_slashes : Text → Text
drop_slashes [] = []
drop_slashes (c ∷ s) = let rest = drop_slashes s in if c == b'/' then rest else c ∷ s

-- subresourceKey
unfoldable pub subresource_key : Text → Text → Text
unfolding trim_suffix trim_prefix drop_slashes
subresource_key path suffix =
    let key = trim_suffix (trim_prefix path (utf8 "/api/v1/sessions/")) suffix in
    reverse (drop_slashes (reverse (drop_slashes key)))

-- questionEntry
pub record QuestionEntry : Type 0 where
  pub id : Text
  pub questions : List QuestionItem
  pub timeout_seconds : ℕ

unfoldable pub question_entry : ℕ → QuestionRecord → QuestionEntry
unfolding question_prompt
question_entry now rec = record {
  id = rec.id;
  questions = (question_prompt now rec).questions;
  timeout_seconds = remaining_seconds now rec.expires_at_ms;
}

-- handlePendingQuestion, the test of its loop.
unfoldable pub is_open : ℕ → Text → QuestionRecord → Bool
unfolding question_expired unsupported_question_reason
is_open now key rec =
    text_eq (canonical_session_key rec.session_key) key
    && text_eq rec.status (utf8 "pending")
    && not (question_expired now rec)
    && is_empty (unsupported_question_reason rec)

-- handlePendingQuestion, its loop.
unfoldable pub open_questions :
    ℕ → Text → List QuestionRecord → Table Text → List QuestionEntry × Table Text
unfolding is_open put question_entry
open_questions now key [] m = ([], m)
open_questions now key (rec ∷ recs) m =
    let here = is_open now key rec in
    let rest = open_questions now key recs (if here then put rec.id rec.session_key m else m) in
    (if here then question_entry now rec ∷ rest.0 else rest.0, rest.1)

-- ListQuestions' result.
pub data Listing : Type 0 where
  unchanneled failed : Listing
  listed : List QuestionRecord → Listing

-- handlePendingQuestion: the status, the entries where it is 200, and the routes.
unfoldable pub handle_pending_question :
    ℕ → Bool → Text → Bool → Listing → Table Text → ℕ × List QuestionEntry × Table Text
unfolding open_questions subresource_key
handle_pending_question now is_get path has_conns l m =
    let key = canonical_session_key (subresource_key path (utf8 "/questions")) in
    if not is_get
    then (405, [], m)
    else if not (has_session_key key)
    then (400, [], m)
    else if not has_conns
    then (200, [], m)
    else elim l [
      | unchanneled ↦ (200, [], m)
      | failed ↦ (502, [], m)
      | listed recs ↦ let shown = open_questions now key recs m in (200, shown.0, shown.1)
    ]
