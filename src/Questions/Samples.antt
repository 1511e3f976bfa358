-- ===== src/Questions/Samples.antt =====
-- A question of one session, asked, answered and restored; the theorems at it.
use cubepilot.Prelude.{◌≡◌, refl, true, false, [], ◌∷◌, none, some, utf8, text_eq, has_prefix}
use cubepilot.Prelude.Int.{pos}
use cubepilot.Approvals.{canonical_session_key, has_session_key}
use cubepilot.Questions.{
  Question, QuestionRecord, question_resolved, relay_question_resolved, question_expired,
  subresource_key, trim_prefix, trim_suffix, drop_slashes, unsupported_question_reason,
  unsupported_question,
}
use cubepilot.Questions.Serving.{
  got, Answers, answered, Request, resolve_question, handle_question, settle_body, settle_found,
  settle, called,
}
use cubepilot.Questions.Routing.{
  requested, resolved, routes, owner, told, relay_question_resolved-owner,
}
use cubepilot.Questions.Answering.{AnswerSpec, resolve_question-AnswerSpec}

abbrev yes_no : Question
yes_no = record {
  question_id = utf8 "q";
  header = utf8 "Deploy";
  question = utf8 "Deploy now?";
  options = record { label = utf8 "Yes"; description = [] } ∷ [];
  multi_select = false;
  is_other = true;
  is_secret = false;
  has_secret_store = false;
}

abbrev asked : QuestionRecord
asked = record {
  id = utf8 "r1";
  questions = yes_no ∷ [];
  session_key = utf8 "agent:main:chat";
  expires_at_ms = pos 9000;
  status = utf8 "pending";
}

-- The question moves to another session, and ends there.
relay_question_resolved-owner_example :
    ((relay_question_resolved (utf8 "r1") (utf8 "answered") (
        routes
          (requested 7 (record asked { session_key = utf8 "other" }) ∷ requested 5 asked ∷ []))).0
      ≡ told (utf8 "r1") (utf8 "answered") (
          owner
            (utf8 "r1")
            (requested 7 (record asked { session_key = utf8 "other" }) ∷ requested 5 asked ∷ [])))
    × ((relay_question_resolved (utf8 "r1") (utf8 "expired") (
          routes (
            resolved (utf8 "r1") (utf8 "answered")
            ∷ requested 7 (record asked { session_key = utf8 "other" })
            ∷ requested 5 asked
            ∷ []))).0
        ≡ [])
relay_question_resolved-owner_example =
    relay_question_resolved-owner (utf8 "r1") (utf8 "answered") (utf8 "expired")
      (requested 7 (record asked { session_key = utf8 "other" }) ∷ requested 5 asked ∷ [])

moved :
    told (utf8 "r1") (utf8 "answered") (
      owner
        (utf8 "r1")
        (requested 7 (record asked { session_key = utf8 "other" }) ∷ requested 5 asked ∷ []))
    ≡ question_resolved (utf8 "other") (utf8 "r1") (utf8 "answered") ∷ []
unfolding owner unsupported_question_reason unsupported_question text_eq
moved = refl

abbrev answers : Answers
answers = record {
  found = λ user id. got asked;
  now = 7000000;
  connected = true;
  refused = λ c. none;
}

abbrev request : Request
request = record {
  is_post = true;
  path = utf8 "/api/v1/sessions/chat/questions/answer";
  user = utf8 "ann";
  has_conns = true;
  body = some (utf8 "r1", (utf8 "q", utf8 "Yes" ∷ []) ∷ []);
}

resolve_question-AnswerSpec_example :
    AnswerSpec answers
      (utf8 "/questions/answer")
      false
      request
      (resolve_question answers (utf8 "/questions/answer") false request)
resolve_question-AnswerSpec_example =
    resolve_question-AnswerSpec answers (utf8 "/questions/answer") false request

accepted :
    handle_question answers request
    ≡ (200, answered (utf8 "r1") ((utf8 "q", utf8 "Yes" ∷ []) ∷ []) (utf8 "ann") ∷ [])
unfolding handle_question resolve_question settle_body settle_found settle called question_expired
    subresource_key trim_prefix trim_suffix drop_slashes canonical_session_key has_session_key
    has_prefix text_eq
accepted = refl

keyed :
    has_session_key (
      canonical_session_key
        (subresource_key (utf8 "/api/v1/sessions/chat/questions") (utf8 "/questions")))
    ≡ true
unfolding has_session_key subresource_key trim_prefix trim_suffix drop_slashes canonical_session_key
    has_prefix text_eq
keyed = refl
