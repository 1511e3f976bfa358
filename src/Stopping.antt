-- ===== src/Stopping.antt =====
-- internal/server/abort.go and the settling of internal/server/settle.go: a Stop, against a gateway on
-- which runs start and end meanwhile.
pub mod Settling
pub mod Closing
pub mod Proving
mod Samples
use cubepilot.Prelude.{
  ℕ, zero, suc, ◌≡◌, Bool, true, false, not, ◌&&◌, ◌||◌, List, [], ◌∷◌, ◌++◌, Option, none, some,
  Text, utf8, is_empty, text_eq, contains, if◌then◌else◌, Table, lookup,
}
use cubepilot.Approvals.{
  ApprovalRequested, PendingApproval, Effect, resolved_event, canonical_session_key,
  has_session_key, pending,
}
use cubepilot.Approvals.Handling.{settle_captured}
use cubepilot.Questions.{QuestionRecord, Published, question_resolved, subresource_key}

-- What one look at the wait of the hub finds: nothing yet, the end of the time, an idle session.
pub data Report : Type 0 where
  quiet expired idle : Report

-- The gateway, the user's connection to it, the clock, and the parts of this process that other
-- requests change. A call gives its answer, none for an error, and the world after it, in which others
-- may have acted; it is asked only where there is a connection.
pub record Gateway (W : Type 0) : Type 0 where
  pub connected : W → Bool
  pub list_approvals : W → Option (List ApprovalRequested) × W
  pub in_flight_run : Text → W → Option (Text × Bool) × W
  pub abort_chat : Text → Text → W → Option Bool × W
  pub session_busy : Text → W → Option Bool × W
  pub list_questions : W → Option (List QuestionRecord) × W
  pub cancel_question : Text → W → Bool × W
  pub live : W → Table (Text × Text)
  pub deciding : W → List Text
  pub hub_report : Text → W → Report × W
  pub hub_active : Text → W → Bool
  pub overdue : W → Bool
  pub tick : W → W

-- What a Stop does, in order: the abort of a run of a session; the event that ends an approval's card;
-- the cancel of a question, the end of its route, and the event that ends its card.
pub data Act : Type 0 where
  aborts : Text → Text → Act
  closes_approval : Effect → Act
  cancels : Text → Act
  drops_route : Text → Act
  closes_question : Published → Act

-- What is to be stopped: a run, nothing, or what cannot be named.
pub data Target : Type 0 where
  unnamed nothing : Target
  run : Text → Target

-- settlePendingForSession, the loop over the captured approvals, as cards that it closes.
unfoldable pub close_approvals : List Effect → List Act
close_approvals [] = []
close_approvals (e ∷ es) = closes_approval e ∷ close_approvals es

-- settlePendingForSession, behind the call of CancelQuestion.
unfoldable pub close_question : Text → Text → Bool → List Act
close_question key id false = cancels id ∷ []
close_question key id true =
    cancels id ∷ drops_route id ∷ closes_question (question_resolved key id (utf8 "cancelled")) ∷ []

-- settlePendingForSession, the test of its second loop.
unfoldable pub is_unsettled : Text → QuestionRecord → Bool
is_unsettled key rec =
    text_eq (canonical_session_key rec.session_key) key && text_eq rec.status (utf8 "pending")

module _ {W : Type 0} where
  -- abortTargetRunID, on the answer.
  unfoldable pub name_run : Option (Text × Bool) × W → Target × W
  name_run (none, w) = (unnamed, w)
  name_run (some (id, active), w) =
      (if active && is_empty id then unnamed else if active then run id else nothing, w)

  -- abortLanded, on the answer.
  unfoldable pub is_idle : Option Bool × W → Bool × W
  is_idle (none, w) = (false, w)
  is_idle (some busy, w) = (not busy, w)

  -- handleAbort, on what it reads of the pending approvals.
  unfoldable pub captured_of : Text → Option (List ApprovalRequested) × W → List PendingApproval × W
  captured_of key (none, w) = ([], w)
  captured_of key (some evs, w) = (pending key evs, w)

  -- handleTurnStatus, on the answer.
  unfoldable pub turn_answer : Option Bool × W → ℕ × Option Bool × W
  turn_answer (none, w) = (502, none, w)
  turn_answer (some busy, w) = (200, some busy, w)

module _ {W : Type 0} (g : Gateway W) where
  -- A call through liveConn.
  unfoldable pub through : {A : Type 0} → (W → Option A × W) → W → Option A × W
  through call w = if g.connected w then call w else (none, w)

  -- LiveRunID
  unfoldable pub live_run_id : Text → Text → W → Option Text
  live_run_id user key w = elim (lookup key (g.live w)) [
    | none ↦ none
    | some (owner, id) ↦ if text_eq owner user && not (is_empty id) then some id else none
  ]

  -- abortTargetRunID
  unfoldable pub abort_target_run_id : Text → W → Target × W
  unfolding through name_run
  abort_target_run_id key w = name_run (through (g.in_flight_run key) w)

  -- handleAbort, what it is to stop.
  unfoldable pub target : Text → Text → W → Target × W
  unfolding live_run_id abort_target_run_id
  target user key w = elim (live_run_id user key w) [
    | some id ↦ (run id, w)
    | none ↦ abort_target_run_id key w
  ]

  -- abortLanded
  unfoldable pub abort_landed : Text → W → Bool × W
  unfolding through is_idle
  abort_landed key w = is_idle (through (g.session_busy key) w)

  -- handleAbort, behind the abort of a run: whether the run is over.
  unfoldable pub reconcile : Text → Option Bool × W → Bool × W
  unfolding abort_landed
  reconcile key (some true, w) = (true, w)
  reconcile key (some false, w) = abort_landed key w
  reconcile key (none, w) = abort_landed key w

  -- handleAbort, the abort: whether there is nothing left to stop, what has been sent, the world.
  unfoldable pub stop : Text → Target × W → Bool × List Act × W
  unfolding through reconcile
  stop key (unnamed, w) = (false, [], w)
  stop key (nothing, w) = (true, [], w)
  stop key (run id, w) =
      let acts = if g.connected w then aborts key id ∷ [] else [] in
      let over = reconcile key (through (g.abort_chat key id) w) in (over.0, acts, over.1)

  -- settlePendingForSession, the round for a question: CancelQuestion through liveConn.
  unfoldable pub settle_question : Text → Text → W → List Act × W
  unfolding close_question
  settle_question key id w =
      let answer = g.cancel_question id w in
      if g.connected w then (close_question key id answer.0, answer.1) else ([], w)

  -- settlePendingForSession, its second loop.
  unfoldable pub settle_questions : Text → List QuestionRecord → W → List Act × W
  unfolding is_unsettled settle_question
  settle_questions key [] w = ([], w)
  settle_questions key (rec ∷ recs) w =
      let here = if is_unsettled key rec then settle_question key rec.id w else ([], w) in
      let rest = settle_questions key recs here.1 in (here.0 ++ rest.0, rest.1)

  unfoldable pub settle_listed : Text → Option (List QuestionRecord) × W → List Act × W
  unfolding settle_questions
  settle_listed key (none, w) = ([], w)
  settle_listed key (some recs, w) = settle_questions key recs w

  -- settlePendingForSession
  unfoldable pub settle_pending_for_session : Text → List PendingApproval → W → List Act × W
  unfolding close_approvals settle_listed through
  settle_pending_for_session key captured w =
      let cards = close_approvals (settle_captured (g.deciding w) captured) in
      let rest = settle_listed key (through g.list_questions w) in (cards ++ rest.0, rest.1)

  -- waitSessionIdle, the two signals when the hub has reported; none to go on waiting.
  unfoldable pub confirm : Text → Option Bool × W → Option ℕ × W
  confirm key (none, w) = (some (if g.overdue w then 504 else 502), w)
  confirm key (some busy, w) = (if not busy && not (g.hub_active key w) then some 200 else none, w)

  -- waitSessionIdle, its first select.
  unfoldable pub look : Text → Report × W → Option ℕ × W
  unfolding confirm through
  look key (quiet, w) = (none, w)
  look key (expired, w) = (some 504, w)
  look key (idle, w) = confirm key (through (g.session_busy key) w)

  -- waitSessionIdle, with the status that handleAbort gives to its result. The rounds are those that
  -- begin before the end of the time.
  unfoldable pub wait_session_idle : ℕ → Text → W → ℕ × W
  unfolding look
  wait_session_idle zero key w = (504, w)
  wait_session_idle (suc rounds) key w =
      let seen = look key (g.hub_report key w) in
      let rest = wait_session_idle rounds key (g.tick seen.1) in
      elim seen.0 [ some status ↦ (status, seen.1) | none ↦ rest ]

  -- handleAbort, its read of the pending approvals.
  unfoldable pub capture : Bool → Text → W → List PendingApproval × W
  unfolding captured_of through
  capture has_service key w =
      let read = captured_of key (through g.list_approvals w) in
      if has_service then read else ([], w)

  -- handleAbort, behind the abort.
  unfoldable pub finish : ℕ → Text → List PendingApproval → Bool × List Act × W → ℕ × List Act × W
  unfolding settle_pending_for_session wait_session_idle
  finish rounds key captured (false, acts, w) = (502, acts, w)
  finish rounds key captured (true, acts, w) =
      let settled = settle_pending_for_session key captured w in
      let waited = wait_session_idle rounds key settled.1 in (waited.0, acts ++ settled.0, waited.1)

  -- handleAbort, for a session that it can be asked for.
  unfoldable pub stop_session : ℕ → Bool → Text → Text → W → ℕ × List Act × W
  unfolding capture target stop finish
  stop_session rounds has_service user key w =
      let read = capture has_service key w in
      finish rounds key read.0 (stop key (target user key read.1))

  -- handleAbort: the status, what it has done, the world.
  unfoldable pub handle_abort : ℕ → Bool → Text → Text → Bool → Bool → W → ℕ × List Act × W
  unfolding stop_session
  handle_abort rounds is_post user path has_conns has_service w =
      let key = canonical_session_key (subresource_key path (utf8 "/abort")) in
      if not is_post
      then (405, [], w)
      else if not (has_session_key key)
      then (400, [], w)
      else if not has_conns
      then (503, [], w)
      else stop_session rounds has_service user key w

  -- handleTurnStatus, where `established` is connEstablished: the status, and the answer where it is 200.
  unfoldable pub handle_turn_status : (W → Bool × W) → Bool → Text → Bool → W → ℕ × Option Bool × W
  unfolding turn_answer
  handle_turn_status established is_get path has_conns w =
      let key = canonical_session_key (subresource_key path (utf8 "/turn")) in
      let (ok, w1) = established w in
      if not is_get
      then (405, none, w)
      else if not (has_session_key key)
      then (400, none, w)
      else if not has_conns
      then (200, some false, w)
      else turn_answer (if ok then g.session_busy key w1 else (none, w1))
