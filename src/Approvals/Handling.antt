-- ===== src/Approvals/Handling.antt =====
-- The handlers of internal/server/approvals.go, the rule that allow-always derives and its grant in
-- internal/server/handlers_agent_approval.go, and the relays of internal/server/settle.go.
pub mod Words
pub mod Deriving
pub mod Granting
use cubepilot.Prelude.{
  ℕ, ◌≡◌, Bool, true, false, not, ◌&&◌, ◌||◌, List, [], ◌∷◌, ◌++◌, Option, none, some, Text, utf8,
  is_empty, text_eq, contains, if◌then◌else◌, ◌==◌,
}
use cubepilot.Allowlist.{AllowlistRule}
use cubepilot.Schedule.{fields}
use cubepilot.Approvals.{
  ApprovalRequested, PendingApproval, canonical_session_key, has_session_key, project_approval,
  pending, ResolveError, bad_decision, wait_over, no_channel, not_pending, gateway_failed, Effect,
  resolved_event, Listing, unlisted, listed, Answers, Resolution, failed, settled, is_decision,
  resolve,
}

-- The bytes that regexp.QuoteMeta escapes.
unfoldable pub is_meta : ℕ → Bool
is_meta c =
    c == b'\\'
    || c == b'.'
    || c == b'+'
    || c == b'*'
    || c == b'?'
    || c == b'('
    || c == b')'
    || c == b'|'
    || c == b'['
    || c == b']'
    || c == b'{'
    || c == b'}'
    || c == b'^'
    || c == b'$'

-- regexp.QuoteMeta
unfoldable pub quote_meta : Text → Text
unfolding is_meta
quote_meta [] = []
quote_meta (c ∷ s) = if is_meta c then b'\\' ∷ c ∷ quote_meta s else c ∷ quote_meta s

-- strings.Join(ws, " ")
unfoldable pub join : List Text → Text
join [] = []
join (w ∷ []) = w
join (w ∷ v ∷ ws) = w ++ b' ' ∷ join (v ∷ ws)

-- deriveAllowAlwaysRule, on the fields of the command.
unfoldable pub rule_of : List Text → Option AllowlistRule
unfolding quote_meta join
rule_of [] = none
rule_of (f ∷ []) = some (record { pattern = f; arg_pattern = utf8 "^$" })
rule_of (f ∷ g ∷ gs) =
    some (record { pattern = f; arg_pattern = b'^' ∷ (quote_meta (join (g ∷ gs)) ++ b'$' ∷ []) })

-- deriveAllowAlwaysRule
unfoldable pub derive_allow_always_rule : Text → Option AllowlistRule
unfolding rule_of
derive_allow_always_rule command = rule_of (fields command)

-- What a grant finds: whether there is a client, the policy of the resolved configuration, if it is to
-- be had and not empty, and whether the store's Add succeeds.
pub record GrantAnswers : Type 0 where
  pub has_client : Bool
  pub policy : Option Text
  pub added : Bool

abbrev pub Grant : Type 0
Grant = AllowlistRule × Text

-- allowlistAlways: its result, an error being false, and the grants that are given to Add.
unfoldable pub allowlist_always : GrantAnswers → Text → AllowlistRule → Bool × List Grant
allowlist_always g command rule =
    let gated : Bool = elim g.policy [ none ↦ true | some p ↦ text_eq p (utf8 "Allowlist") ] in
    if g.has_client && gated then (g.added, (rule, command) ∷ []) else (false, [])

-- approvalErrorStatus
unfoldable pub approval_error_status : Text → ℕ
approval_error_status reason =
    if text_eq reason (utf8 "APPROVAL_NOT_FOUND")
    then 404
    else if text_eq reason (utf8 "APPROVAL_ALREADY_RESOLVED")
    then 409
    else 502

-- The status of an error of Resolve; ReasonOf finds no reason in errors that are not the gateway's.
unfoldable pub error_status : ResolveError → ℕ
unfolding approval_error_status
error_status bad_decision = approval_error_status []
error_status wait_over = approval_error_status []
error_status no_channel = 503
error_status not_pending = 404
error_status (gateway_failed reason) = approval_error_status reason

-- A request: whether it is a POST, the session key of its path, whether the server has the service,
-- and the id and the decision of its body, if it decodes.
pub record Request : Type 0 where
  pub is_post : Bool
  pub key : Text
  pub has_service : Bool
  pub body : Option (Text × Text)

pub record Response : Type 0 where
  pub status : ℕ
  pub allowlisted : Option Bool
  pub effects : List Effect
  pub grants : List Grant

abbrev pub refusal : ℕ → Response
refusal s = record { status = s; allowlisted = none; effects = []; grants = [] }

-- handleApproval, for allow-always on an approval that is settled.
unfoldable pub grant_command : GrantAnswers → Text → Bool × List Grant
unfolding derive_allow_always_rule allowlist_always
grant_command g command = elim (derive_allow_always_rule command) [
  | none ↦ (false, [])
  | some rule ↦ allowlist_always g command rule
]

-- handleApproval, behind Resolve.
unfoldable pub answer : GrantAnswers → Text → Resolution × List Effect → Response
unfolding error_status grant_command
answer g decision (failed e, es) = record {
  status = error_status e;
  allowlisted = none;
  effects = es;
  grants = [];
}
answer g decision (settled p, es) =
    let (ok, gs) = grant_command g p.command in
    if text_eq decision (utf8 "allow-always")
    then record { status = 200; allowlisted = some ok; effects = es; grants = gs }
    else record { status = 200; allowlisted = none; effects = es; grants = [] }

-- handleApproval, behind the decoding of the body.
unfoldable pub decide_body : Answers → GrantAnswers → Text → Text → Text → Text → Response
unfolding answer
decide_body a g user key id decision =
    if is_empty id
    then refusal 400
    else if not (is_decision decision)
    then refusal 400
    else answer g decision (resolve a user key id decision)

-- handleApproval
unfoldable pub handle_approval : Answers → GrantAnswers → Text → Request → Response
unfolding decide_body
handle_approval a g user r =
    let key = canonical_session_key r.key in
    if not r.is_post
    then refusal 405
    else if not (has_session_key key)
    then refusal 400
    else if not r.has_service
    then refusal 503
    else elim r.body [
      | none ↦ refusal 400
      | some (id, decision) ↦ decide_body a g user key id decision
    ]

-- handlePendingApproval: the status, and the cards where it is 200.
unfoldable pub handle_pending_approval : Bool → Bool → Text → Listing → ℕ × List PendingApproval
handle_pending_approval is_get has_service path_key l =
    let key = canonical_session_key path_key in
    if not is_get
    then (405, [])
    else if not (has_session_key key)
    then (400, [])
    else if not has_service
    then (200, [])
    else elim l [
      | unlisted e ↦ elim e [ no_channel ↦ (200, []) | _ ↦ (502, []) ]
      | listed evs ↦ (200, pending key evs)
    ]

-- relayApprovalResolved, on the fields of the broadcast.
unfoldable pub relay_approval_resolved : Text → Text → Text → Text → List Effect
relay_approval_resolved id session decision resolved_by =
    let key = canonical_session_key session in
    let verdict =
      if is_empty resolved_by
      then none
      else if text_eq decision (utf8 "allow-once") || text_eq decision (utf8 "allow-always")
      then some true
      else if text_eq decision (utf8 "deny")
      then some false
      else none in
    if is_empty id
    then []
    else if not (has_session_key key)
    then []
    else resolved_event key id verdict ∷ []

-- settlePendingForSession, its first half: the captured approvals that no decision is being written
-- for; `deciding` are the ids that are reserved.
unfoldable pub settle_captured : List Text → List PendingApproval → List Effect
settle_captured deciding [] = []
settle_captured deciding (p ∷ ps) =
    let rest = settle_captured deciding ps in
    if contains deciding p.approval_id
    then rest
    else resolved_event p.session_key p.approval_id none ∷ rest
