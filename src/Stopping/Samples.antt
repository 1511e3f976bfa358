-- ===== src/Stopping/Samples.antt =====
-- A gateway on which one run is in flight until it is aborted, with an approval and a question pending;
-- the theorems at it.
use cubepilot.Prelude.{
  ℕ, zero, suc, ◌≡◌, refl, Bool, true, false, [], ◌∷◌, Option, none, some, Text, utf8, text_eq,
  contains, has_prefix, Elem, ◌↔◌, lookup,
}
use cubepilot.Prelude.Int.{pos}
use cubepilot.Prelude.Sorting.{sort, insert_sorted}
use cubepilot.Approvals.{
  ApprovalRequested, PendingApproval, resolved_event, canonical_session_key, project_approval,
  pending, of_session, created_before, int_ltb,
}
use cubepilot.Approvals.Handling.{settle_captured}
use cubepilot.Questions.{QuestionRecord, question_resolved}
use cubepilot.Stopping.{
  Gateway, Report, aborts, closes_approval, cancels, drops_route, closes_question, stop_session,
  capture, captured_of, through, target, live_run_id, abort_target_run_id, name_run, stop,
  reconcile, finish, settle_pending_for_session, settle_listed, settle_questions, settle_question,
  close_question, close_approvals, is_unsettled, wait_session_idle, look, confirm,
}
use cubepilot.Stopping.Settling.{IsHeld, settle_pending_for_session_lem}

abbrev chat : Text
chat = utf8 "agent:main:chat"

abbrev write : ApprovalRequested
write = record {
  id = utf8 "a1";
  session_key = chat;
  command = utf8 "rm x";
  warning_text = [];
  created_at_ms = pos 1;
  expires_at_ms = pos 9;
}

abbrev asked : QuestionRecord
asked = record {
  id = utf8 "q1";
  questions = [];
  session_key = chat;
  expires_at_ms = pos 9;
  status = utf8 "pending";
}

-- The run is in flight in the world 0 alone.
abbrev in_flight : ℕ → Option (Text × Bool)
in_flight zero = some (utf8 "r1", true)
in_flight (suc w) = some ([], false)

abbrev is_busy : ℕ → Option Bool
is_busy zero = some true
is_busy (suc w) = some false

abbrev gateway : Gateway ℕ
gateway = record {
  connected = λ w. true;
  list_approvals = λ w. (some (write ∷ []), w);
  in_flight_run = λ key w. (in_flight w, w);
  abort_chat = λ key id w. (some true, suc w);
  session_busy = λ key w. (is_busy w, w);
  list_questions = λ w. (some (asked ∷ []), w);
  cancel_question = λ id w. (true, w);
  live = λ w. [];
  deciding = λ w. [];
  hub_report = λ key w. (Report.idle, w);
  hub_active = λ key w. false;
  overdue = λ w. false;
  tick = λ w. w;
}

abbrev Running : Text → Text → ℕ → Type 0
Running key id w = w ≡ 0

-- The run is aborted by its name, then the cards are closed.
stopped : stop_session gateway 3 true (utf8 "ann") chat 0 ≡ (
  200,
  aborts chat (utf8 "r1")
      ∷ closes_approval (resolved_event chat (utf8 "a1") none)
      ∷ cancels (utf8 "q1")
      ∷ drops_route (utf8 "q1")
      ∷ closes_question (question_resolved chat (utf8 "q1") (utf8 "cancelled"))
      ∷ [],
  1,
)
unfolding stop_session capture captured_of through target live_run_id abort_target_run_id name_run
    stop reconcile finish settle_pending_for_session settle_listed settle_questions settle_question
    close_question close_approvals is_unsettled wait_session_idle look confirm settle_captured
    contains text_eq pending of_session canonical_session_key project_approval has_prefix sort
    insert_sorted created_before int_ltb lookup
stopped = refl

settle_pending_for_session_lem_example :
    (Elem
        (closes_approval (resolved_event chat (utf8 "a1") none))
        (settle_pending_for_session gateway chat (project_approval write ∷ []) 1).0
      ↔ (p : PendingApproval) × Elem p (project_approval write ∷ [])
        × (contains [] p.approval_id ≡ false)
        × (resolved_event chat (utf8 "a1") none ≡ resolved_event p.session_key p.approval_id none))
    × (Elem
          (cancels (utf8 "q1"))
          (settle_pending_for_session gateway chat (project_approval write ∷ []) 1).0
        ↔ (rec : QuestionRecord) × Elem rec (asked ∷ []) × IsHeld chat rec × (utf8 "q1" ≡ rec.id))
settle_pending_for_session_lem_example =
    settle_pending_for_session_lem gateway chat (utf8 "q1") (project_approval write ∷ [])
      (asked ∷ []) (resolved_event chat (utf8 "a1") none) 1 1 (λ v. refl) refl
