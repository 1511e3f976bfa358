-- ===== src/Approvals/Gating.antt =====
-- PreTurn and applyPolicy of internal/server/approvals.go. The gateway's file is that of
-- internal/openclaw/ws/frames.go.
use cubepilot.Prelude.{
  ℕ, zero, suc, Bool, true, false, not, ◌&&◌, ◌||◌, List, [], ◌∷◌, Option, none, some, Text, utf8,
  is_empty, text_eq, Table, lookup, insert, if◌then◌else◌,
}
use cubepilot.Allowlist.{AllowlistRule}

-- AllowlistEntry
pub record AllowlistEntry : Type 0 where
  pub id : Text
  pub pattern : Text
  pub arg_pattern : Text
  pub source : Text

-- approvalDefaults
pub record ApprovalDefaults : Type 0 where
  pub security : Text
  pub ask : Text
  pub ask_fallback : Text
  pub auto_allow_skills : Option Bool

-- ApprovalAgentPolicy
pub record ApprovalAgentPolicy : Type 0 where
  pub fields : ApprovalDefaults
  pub allowlist : List AllowlistEntry

-- ApprovalsFile; a nil map of agents is the empty table, the socket is a path and a token.
pub record ApprovalsFile : Type 0 where
  pub version : ℕ
  pub socket : Option (Text × Text)
  pub defaults : Option ApprovalDefaults
  pub agents : Table ApprovalAgentPolicy

-- ApprovalsSnapshot
pub record ApprovalsSnapshot : Type 0 where
  pub exists_file : Bool
  pub hash : Text
  pub file : ApprovalsFile

-- What a map gives for a missing agent.
abbrev pub no_agent : ApprovalAgentPolicy
no_agent = record {
  fields = record { security = []; ask = []; ask_fallback = []; auto_allow_skills = none };
  allowlist = [];
}

-- toWSEntries
unfoldable pub to_ws_entries : List AllowlistRule → List AllowlistEntry
to_ws_entries [] = []
to_ws_entries (r ∷ rs) =
    let rest = to_ws_entries rs in
    if is_empty r.pattern
    then rest
    else (record { id = []; pattern = r.pattern; arg_pattern = r.arg_pattern; source = [] }) ∷ rest

-- ApprovalPolicyNone, ApprovalPolicyAllowlist, ApprovalPolicyAlwaysAsk
abbrev pub policy_none : Text
policy_none = utf8 "None"

abbrev pub policy_allowlist : Text
policy_allowlist = utf8 "Allowlist"

abbrev pub policy_always_ask : Text
policy_always_ask = utf8 "AlwaysAsk"

abbrev pub main_agent : Text
main_agent = utf8 "main"

-- applyPolicyOnce, what it makes of the file that it has read.
unfoldable pub with_policy : Text → List AllowlistRule → ApprovalsFile → ApprovalsFile
unfolding to_ws_entries
with_policy pol allow file =
    let agent : ApprovalAgentPolicy = elim (lookup main_agent file.agents) [
      | none ↦ no_agent
      | some a ↦ a
    ] in
    let entries = if text_eq pol policy_always_ask then [] else to_ws_entries allow in
    record file { agents = insert main_agent (record agent { allowlist = entries }) file.agents }

-- The hash that the set is compared by.
unfoldable pub base_of : ApprovalsSnapshot → Text
base_of snap = if snap.exists_file then snap.hash else []

-- The calls of a gateway, with the state of the world passed on: GetApprovalsPolicy, where none is an
-- error, SetApprovalsPolicy, whether it succeeds, and the pause between two attempts, whether the
-- context is still on after it.
pub record Gateway (W : Type 0) : Type 0 where
  pub get : W → Option ApprovalsSnapshot × W
  pub set : ApprovalsFile → Text → W → Bool × W
  pub pause : W → Bool × W

module _ {W : Type 0} (g : Gateway W) where
  -- applyPolicyOnce, behind the read.
  unfoldable pub set_policy : Text → List AllowlistRule → Option ApprovalsSnapshot → W → Bool × W
  unfolding with_policy base_of
  set_policy pol allow none w = (false, w)
  set_policy pol allow (some snap) w = g.set (with_policy pol allow snap.file) (base_of snap) w

  -- applyPolicyOnce
  unfoldable pub apply_policy_once : Text → List AllowlistRule → W → Bool × W
  unfolding set_policy
  apply_policy_once pol allow w = let (snap, w1) = g.get w in set_policy pol allow snap w1

  -- applyPolicy, with the attempts that are left behind the current one.
  unfoldable pub attempts : ℕ → Text → List AllowlistRule → W → Bool × W
  unfolding apply_policy_once
  attempts zero pol allow w = apply_policy_once pol allow w
  attempts (suc n) pol allow w =
      let (ok, w1) = apply_policy_once pol allow w in
      elim ok [
        | true ↦ (true, w1)
        | false ↦
            let (on, w2) = g.pause w1 in
            elim on [ false ↦ (false, w2) | true ↦ attempts n pol allow w2 ]
      ]

  -- applyPolicy; applyPolicyAttempts is 3.
  unfoldable pub apply_policy : Text → List AllowlistRule → W → Bool × W
  unfolding attempts
  apply_policy pol allow w = attempts 2 pol allow w

  -- PreTurn, behind applyPolicy.
  unfoldable pub note_revision :
      Text → Text → Table Text → Bool × W → Option Bool × (Table Text × W)
  note_revision user rev revs (true, w) = (some true, (insert user rev revs, w))
  note_revision user rev revs (false, w) = (none, (revs, w))

  -- PreTurn, for a gated policy: the applied revisions are `revs`.
  unfoldable pub gate :
      Bool
      → Text
      → Text
      → List AllowlistRule
      → Text
      → Table Text
      → W
      → Option Bool × (Table Text × W)
  unfolding apply_policy note_revision
  gate connected user pol allow rev revs w =
      let applied : Text = elim (lookup user revs) [ none ↦ [] | some r ↦ r ] in
      if not connected
      then (none, (revs, w))
      else if not (is_empty rev) && not (text_eq rev applied)
      then note_revision user rev revs (apply_policy pol allow w)
      else (some true, (revs, w))

  -- PreTurn: whether the session is to be guarded, none being an error, and the applied revisions.
  -- `resolved` is none where the configuration cannot be resolved.
  unfoldable pub pre_turn :
      Option (Text × (List AllowlistRule × Text))
      → Bool
      → Text
      → Table Text
      → W
      → Option Bool × (Table Text × W)
  unfolding gate
  pre_turn none connected user revs w = (none, (revs, w))
  pre_turn (some (pol, (allow, rev))) connected user revs w =
      if text_eq pol policy_allowlist || text_eq pol policy_always_ask
      then gate connected user pol allow rev revs w
      else if is_empty pol || text_eq pol policy_none
      then (some false, (revs, w))
      else (none, (revs, w))
