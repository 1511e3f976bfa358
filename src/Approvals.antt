-- ===== src/Approvals.antt =====
-- internal/server/approvals.go: the pending approvals of a session and the decisions on them. The
-- gateway's records are those of internal/openclaw/ws/frames.go.
pub mod Handling
pub mod Ordering
pub mod Resolving
pub mod Reserving
pub mod Exclusion
pub mod Holding
pub mod Gating
pub mod Applying
mod Samples
use cubepilot.Prelude.{
  ℕ, ◌≡◌, Bool, true, false, not, ◌&&◌, ◌||◌, List, [], ◌∷◌, ◌++◌, Option, none, some, Text, utf8,
  is_empty, text_eq, has_prefix, ltb, if◌then◌else◌,
}
use cubepilot.Prelude.Int.{ℤ, pos, negsuc}
use cubepilot.Prelude.Sorting.{sort}

-- canonicalSessionKey
unfoldable pub canonical_session_key : Text → Text
canonical_session_key key =
    if has_prefix key (utf8 "agent:") then key else utf8 "agent:main:" ++ key

-- hasSessionKey
unfoldable pub has_session_key : Text → Bool
has_session_key key = not (is_empty key) && not (text_eq key (utf8 "agent:main:"))

-- ApprovalRequested, with the fields of its Request that are read.
pub record ApprovalRequested : Type 0 where
  pub id : Text
  pub session_key : Text
  pub command : Text
  pub warning_text : Text
  pub created_at_ms : ℤ
  pub expires_at_ms : ℤ

-- pendingApproval; Tool is "exec" and Level "write" in every one.
pub record PendingApproval : Type 0 where
  pub approval_id : Text
  pub session_key : Text
  pub command : Text
  pub message : Text
  pub created_at_ms : ℤ
  pub expires_at_ms : ℤ

-- projectApproval
unfoldable pub project_approval : ApprovalRequested → PendingApproval
project_approval ev = record {
  approval_id = ev.id;
  session_key = canonical_session_key ev.session_key;
  command = ev.command;
  message = ev.warning_text;
  created_at_ms = ev.created_at_ms;
  expires_at_ms = ev.expires_at_ms;
}

-- `a < b`
unfoldable pub int_ltb : ℤ → ℤ → Bool
int_ltb (pos a) (pos b) = ltb a b
int_ltb (pos a) (negsuc b) = false
int_ltb (negsuc a) (pos b) = true
int_ltb (negsuc a) (negsuc b) = ltb b a

unfoldable pub created_before : PendingApproval → PendingApproval → Bool
created_before a b = int_ltb a.created_at_ms b.created_at_ms

-- Pending, its loop over the gateway's list.
unfoldable pub of_session : Text → List ApprovalRequested → List PendingApproval
unfolding canonical_session_key project_approval
of_session key [] = []
of_session key (ev ∷ evs) =
    let rest = of_session key evs in
    if text_eq (canonical_session_key ev.session_key) key then project_approval ev ∷ rest else rest

-- Pending, on what the gateway listed; the sort is a stable one.
unfoldable pub pending : Text → List ApprovalRequested → List PendingApproval
unfolding of_session created_before
pending key evs = sort created_before (of_session key evs)

-- findApproval
unfoldable pub find_approval : List PendingApproval → Text → Option PendingApproval
find_approval [] id = none
find_approval (p ∷ ps) id =
    let rest = find_approval ps id in if text_eq p.approval_id id then some p else rest

-- The errors of Resolve. A gateway error carries the reason that ReasonOf finds in it.
pub data ResolveError : Type 0 where
  bad_decision wait_over no_channel not_pending : ResolveError
  gateway_failed : Text → ResolveError

-- What a decision changes outside, in order: the decision that the gateway is sent, the event on the
-- session's stream (its last argument is Approved), the entry of the audit ledger.
pub data Effect : Type 0 where
  sent : Text → Text → Effect
  resolved_event : Text → Text → Option Bool → Effect
  recorded : Text → Text → Text → Text → Text → Effect

-- ListApprovals' result.
pub data Listing : Type 0 where
  unlisted : ResolveError → Listing
  listed : List ApprovalRequested → Listing

-- What a decision finds: whether the reservation is had before the deadline, what the gateway lists,
-- whether there is a connection for the decision's call and the reason with which it fails, if it
-- does, and whether the service has a ledger.
pub record Answers : Type 0 where
  pub reserved : Bool
  pub listing : Listing
  pub connected : Bool
  pub refused : Option Text
  pub has_store : Bool

pub data Resolution : Type 0 where
  failed : ResolveError → Resolution
  settled : PendingApproval → Resolution

-- The three decisions that Resolve takes.
unfoldable pub is_decision : Text → Bool
is_decision d =
    text_eq d (utf8 "approve") || text_eq d (utf8 "reject") || text_eq d (utf8 "allow-always")

-- Resolve, its `approved`
unfoldable pub is_approval : Text → Bool
is_approval d = text_eq d (utf8 "approve") || text_eq d (utf8 "allow-always")

-- The decision's call: ResolveApproval of the connections, on the decision that Resolve gives it. What
-- it sends, and its error.
unfoldable pub resolve_approval : Answers → Text → Text → List Effect × Option ResolveError
resolve_approval a id decision =
    if a.connected
    then (
      sent id (if text_eq decision (utf8 "approve") then utf8 "allow-once" else utf8 "deny") ∷ [],
      elim a.refused [ none ↦ none | some reason ↦ some (gateway_failed reason) ],
    )
    else ([], some no_channel)

-- recordDecision
unfoldable pub record_decision : Answers → Text → PendingApproval → Bool → List Effect
record_decision a user p approved =
    if a.has_store
    then recorded user p.session_key p.approval_id p.command
        (if approved then utf8 "approved" else utf8 "rejected")
      ∷ []
    else []

-- Resolve, behind the decision's call.
unfoldable pub conclude :
    Answers
    → Text
    → PendingApproval
    → Bool
    → List Effect × Option ResolveError
    → Resolution × List Effect
unfolding record_decision
conclude a user p approved (calls, some e) = (failed e, calls)
conclude a user p approved (calls, none) = (
  settled p,
  calls
      ++ resolved_event p.session_key p.approval_id (some approved)
        ∷ record_decision a user p approved,
)

-- Resolve, once the approval is found.
unfoldable pub decide : Answers → Text → Text → PendingApproval → Text → Resolution × List Effect
unfolding is_approval resolve_approval conclude
decide a user id p decision =
    let approved = is_approval decision in
    let word = if approved then utf8 "approve" else utf8 "reject" in
    conclude a user p approved (resolve_approval a id word)

-- Resolve, behind the read of the pending set.
unfoldable pub resolve_listed :
    Answers → Text → Text → Text → Text → Listing → Resolution × List Effect
unfolding pending find_approval decide
resolve_listed a user key id decision (unlisted e) = (failed e, [])
resolve_listed a user key id decision (listed evs) = elim (find_approval (pending key evs) id) [
  | none ↦ (failed not_pending, [])
  | some p ↦ decide a user id p decision
]

-- Resolve
unfoldable pub resolve : Answers → Text → Text → Text → Text → Resolution × List Effect
unfolding is_decision resolve_listed
resolve a user key id decision =
    if not (is_decision decision)
    then (failed bad_decision, [])
    else if not a.reserved
    then (failed wait_over, [])
    else resolve_listed a user key id decision a.listing
