-- ===== src/Approvals/Samples.antt =====
-- Two approvals of one session, a decision on the second, and a gateway that holds one file; the
-- theorems at them.
use cubepilot.Prelude.{
  ℕ, ◌≡◌, refl, ap, sym, ◌∙◌, Bool, true, false, [], ◌∷◌, Option, none, some, Text, utf8, Elem, inl,
  inr, text_eq, text_eq_iff, has_prefix, if◌then◌else◌, lookup, insert, arith, leading, space_chars,
  Bool-cases,
}
use cubepilot.Prelude.Int.{pos}
use cubepilot.Prelude.Sorting.{sort, insert_sorted}
use cubepilot.Allowlist.{AllowlistRule, validate, pattern_has_separator}
use cubepilot.Prelude.{text_contains}
use cubepilot.Approvals.Handling.Deriving.{derive_allow_always_rule-validate}
use cubepilot.Schedule.{fields, fields_loop}
use cubepilot.Approvals.{
  ApprovalRequested, canonical_session_key, has_session_key, project_approval, int_ltb,
  created_before, of_session, pending, find_approval, Answers, listed, sent, resolved_event,
  recorded, resolve, resolve_listed, decide, conclude, resolve_approval, record_decision,
  is_decision, is_approval,
}
use cubepilot.Approvals.Resolving.{ResolveSpec, resolve-ResolveSpec}
use cubepilot.Approvals.Handling.{
  GrantAnswers, Grant, Request, handle_approval, decide_body, answer, grant_command,
  allowlist_always, derive_allow_always_rule, rule_of, quote_meta, is_meta, join,
}
use cubepilot.Approvals.Handling.Granting.{IsGranted, handle_approval-IsGranted}
use cubepilot.Approvals.Reserving.{
  fresh, set_phase, Decisions, holding, found, start, reserve, Reachable, starts, steps, raises,
  reserves, finds,
}
use cubepilot.Approvals.Exclusion.{Reachable-IsExclusive}
use cubepilot.Approvals.Holding.{IsExclusive, held}
use cubepilot.Approvals.Gating.{
  ApprovalsFile, ApprovalsSnapshot, Gateway, base_of, pre_turn, policy_allowlist,
}
use cubepilot.Approvals.Applying.{IsComparing, TurnSpec, pre_turn-TurnSpec}

abbrev chat : Text
chat = utf8 "agent:main:chat"

abbrev first : ApprovalRequested
first = record {
  id = utf8 "a1";
  session_key = utf8 "chat";
  command = utf8 "ls -l";
  warning_text = [];
  created_at_ms = pos 7;
  expires_at_ms = pos 90;
}

abbrev second : ApprovalRequested
second = record first { id = utf8 "a2"; command = utf8 "rm -r /tmp/x"; created_at_ms = pos 5 }

abbrev answers : Answers
answers = record {
  reserved = true;
  listing = listed (first ∷ second ∷ []);
  connected = true;
  refused = none;
  has_store = true;
}

-- The younger one is found by its id, though the older one comes first.
decided :
    (resolve answers (utf8 "ann") chat (utf8 "a1") (utf8 "reject")).1
    ≡ sent (utf8 "a1") (utf8 "deny")
      ∷ resolved_event chat (utf8 "a1") (some false)
      ∷ recorded (utf8 "ann") chat (utf8 "a1") (utf8 "ls -l") (utf8 "rejected")
      ∷ []
unfolding resolve resolve_listed decide conclude resolve_approval record_decision is_decision
    is_approval text_eq pending of_session find_approval canonical_session_key project_approval
    has_prefix sort insert_sorted created_before int_ltb
decided = refl

resolve-ResolveSpec_example :
    ResolveSpec answers
      (utf8 "ann")
      chat
      (utf8 "a1")
      (utf8 "reject")
      (resolve answers (utf8 "ann") chat (utf8 "a1") (utf8 "reject"))
resolve-ResolveSpec_example =
    resolve-ResolveSpec answers (utf8 "ann") chat (utf8 "a1") (utf8 "reject")

abbrev grants : GrantAnswers
grants = record { has_client = true; policy = some (utf8 "Allowlist"); added = true }

abbrev request : Request
request = record {
  is_post = true;
  key = utf8 "chat";
  has_service = true;
  body = some (utf8 "a1", utf8 "allow-always");
}

abbrev grant : Grant
grant = (record { pattern = utf8 "ls"; arg_pattern = utf8 "^-l$" }, utf8 "ls -l")

granted : Elem grant (handle_approval answers grants (utf8 "ann") request).grants
unfolding handle_approval decide_body answer grant_command allowlist_always derive_allow_always_rule
    rule_of quote_meta is_meta join fields fields_loop leading space_chars has_session_key resolve
    resolve_listed decide conclude resolve_approval record_decision is_decision is_approval text_eq
    pending of_session find_approval canonical_session_key project_approval has_prefix sort
    insert_sorted created_before int_ltb
granted = inl refl

handle_approval-IsGranted_example :
    IsGranted answers request grant (handle_approval answers grants (utf8 "ann") request)
handle_approval-IsGranted_example =
    handle_approval-IsGranted answers grants (utf8 "ann") request grant granted

-- One call holds the approval and has found it; another waits.
abbrev busy : Decisions
busy = record start {
  inflight = (utf8 "a1", 4) ∷ [];
  phase = set_phase 4 (found (utf8 "a1")) (set_phase 4 (holding (utf8 "a1")) (λ t. fresh));
  pending = utf8 "a1" ∷ [];
}

busy-Reachable : Reachable busy
unfolding reserve lookup insert
busy-Reachable =
    steps
      (steps (steps starts (raises start (utf8 "a1") (λ h. h))) (
        reserves (record start { pending = utf8 "a1" ∷ [] }) 4 (utf8 "a1") ((utf8 "a1", 4) ∷ [])
          refl refl))
      (finds
        (record start {
          inflight = (utf8 "a1", 4) ∷ [];
          phase = set_phase 4 (holding (utf8 "a1")) (λ t. fresh);
          pending = utf8 "a1" ∷ [];
        })
        4 (utf8 "a1") refl (inl refl))

Reachable-IsExclusive_example :
    IsExclusive busy
    × ((t u : ℕ) (id : Text)
        → held (busy.phase t) ≡ some id
        → held (busy.phase u) ≡ some id
        → t ≡ u)
Reachable-IsExclusive_example = Reachable-IsExclusive busy busy-Reachable

abbrev stored : ApprovalsSnapshot
stored = record {
  exists_file = true;
  hash = utf8 "h0";
  file = record { version = 1; socket = none; defaults = none; agents = [] };
}

abbrev World : Type 0
World = Option (ApprovalsSnapshot × ApprovalsFile)

-- A gateway that takes one set, by the hash of its file, and then is down.
abbrev gateway_get : World → Option ApprovalsSnapshot × World
gateway_get none = (some stored, none)
gateway_get (some x) = (none, some x)

abbrev gateway_set : ApprovalsFile → Text → World → Bool × World
gateway_set f base none =
    if text_eq base (utf8 "h0") then (true, some (stored, f)) else (false, none)
gateway_set f base (some x) = (false, some x)

abbrev gateway : Gateway World
gateway = record { get = gateway_get; set = gateway_set; pause = λ w. (true, w) }

gateway_reads : (w w1 : World) (s : ApprovalsSnapshot) → gateway_get w ≡ (some s, w1) → s ≡ stored
gateway_reads none w1 s h = grind (arith, h)
gateway_reads (some x) w1 s h = absurd (grind (arith, h))

gateway_sets :
    (f : ApprovalsFile) (base : Text) (w w1 : World)
    → gateway_set f base w ≡ (true, w1)
    → (s : ApprovalsSnapshot) × (s ≡ stored) × (base_of s ≡ base) × (w1 ≡ some (s, f))
unfolding base_of
gateway_sets f base none w1 h = elim (Bool-cases (text_eq base (utf8 "h0"))) [
  | inl t ↦
      (stored, refl, sym ((text_eq_iff base (utf8 "h0")).0 t), sym (ap (λ z. z.1) (rw t at h)))
  | inr e ↦ absurd (grind (arith, rw e at h))
]
gateway_sets f base (some x) w1 h = absurd (grind (arith, h))

gateway-IsComparing : IsComparing gateway (λ w. w) (λ s. s ≡ stored)
gateway-IsComparing = record {
  reads = gateway_reads;
  sets = gateway_sets;
  hashes = λ s t e d _. ap (λ z. z.file) (e ∙ sym d);
}

abbrev rule : AllowlistRule
rule = record { pattern = utf8 "ls"; arg_pattern = [] }

pre_turn-TurnSpec_example :
    TurnSpec gateway
      (λ w. w)
      (λ s. s ≡ stored)
      gateway-IsComparing
      (some (policy_allowlist, (rule ∷ [], utf8 "r1")))
      true
      (utf8 "ann")
      []
      (pre_turn gateway (some (policy_allowlist, (rule ∷ [], utf8 "r1"))) true (utf8 "ann") [] none)
pre_turn-TurnSpec_example =
    pre_turn-TurnSpec gateway (λ w. w) (λ s. s ≡ stored) gateway-IsComparing
      (some (policy_allowlist, (rule ∷ [], utf8 "r1"))) true (utf8 "ann") [] none

-- A command whose first word has a bar, which Validate refuses.
abbrev piped : Text
piped = utf8 "ls|wc -l"

abbrev piped_rule : AllowlistRule
piped_rule = record { pattern = utf8 "ls|wc"; arg_pattern = utf8 "^-l$" }

piped_derived : derive_allow_always_rule piped ≡ some piped_rule
unfolding derive_allow_always_rule rule_of quote_meta is_meta join fields fields_loop leading
    space_chars has_prefix
piped_derived = refl

spread_derived : derive_allow_always_rule (utf8 " ls|wc   -l") ≡ some piped_rule
unfolding derive_allow_always_rule rule_of quote_meta is_meta join fields fields_loop leading
    space_chars has_prefix
spread_derived = refl

derive_allow_always_rule-validate_example :
    validate (λ _. true) piped_rule
    ≡ (if text_contains piped_rule.pattern (utf8 "|") then some pattern_has_separator else none)
derive_allow_always_rule-validate_example =
    derive_allow_always_rule-validate (λ _. true) piped piped_rule (λ _. refl) piped_derived
