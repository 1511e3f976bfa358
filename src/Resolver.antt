-- ===== src/Resolver.antt =====
-- internal/resolver/resolver.go: the configuration of a user's instance, from the template, the
-- instance, the grants and the skills.
pub mod Composing
mod Samples
use cubepilot.Prelude.{
  Bool, true, false, not, ◌&&◌, ◌||◌, List, [], ◌∷◌, map, Option, none, some, Text, is_empty,
  trim_space, contains, Table, if◌then◌else◌,
}
use cubepilot.Names.{Host, instance_name}
use cubepilot.Allowlist.{AllowlistRule, effective}
use cubepilot.Grants.{Codec, GrantRecord, list, rule}
use cubepilot.Models.{
  ModelTemplate, ResolvedCredential, merge_instructions, resolve_model, credentials,
}

-- What a read of the API server answers.
pub data Read (A : Type 0) : Type 0 where
  found : A → Read A
  missing broken : Read A

-- What Resolve reads of an AgentTemplate.
pub record AgentTemplate : Type 0 where
  pub models : ModelTemplate
  pub approval_policy : Text
  pub allowlist : List AllowlistRule
  pub instructions : Text

-- What Resolve reads of an AgentInstance.
pub record AgentInstance : Type 0 where
  pub owner : Text
  pub template_ref : Text
  pub selected_model : Text
  pub approval_policy : Text
  pub allowlist : List AllowlistRule
  pub user_instructions : Text
  pub enabled_skills : List Text

-- What Resolve reads of a Skill; `unreachable` tells of its phase.
pub record Skill : Type 0 where
  pub skill_name : Text
  pub path : Text
  pub sha256 : Text
  pub skill_revision : Text
  pub unreachable : Bool

-- ResolvedSkill
pub record ResolvedSkill : Type 0 where
  pub name : Text
  pub path : Text
  pub sha256 : Text
  pub revision : Text

-- ResolvedAgentConfig, as Resolve fills it.
pub record ResolvedAgentConfig : Type 0 where
  pub revision : Text
  pub agent : Text
  pub instance_name : Text
  pub owner : Text
  pub selected_model : Text
  pub model_name : Text
  pub approval_policy : Text
  pub allowlist : List AllowlistRule
  pub instructions : Text
  pub skills : List ResolvedSkill
  pub credentials : List ResolvedCredential

abbrev pub empty_config : ResolvedAgentConfig
empty_config = record {
  revision = [];
  agent = [];
  instance_name = [];
  owner = [];
  selected_model = [];
  model_name = [];
  approval_policy = [];
  allowlist = [];
  instructions = [];
  skills = [];
  credentials = [];
}

-- Empty
unfoldable pub is_empty_config : ResolvedAgentConfig → Bool
is_empty_config c = is_empty c.instance_name && is_empty c.agent && is_empty c.selected_model

-- The errors of Resolve.
pub data ResolveFault : Type 0 where
  instance_fault template_fault model_fault grants_fault skills_fault : ResolveFault

pub data Resolved : Type 0 where
  config : ResolvedAgentConfig → Resolved
  fault : ResolveFault → Resolved

-- What Resolve is answered: the grants are the Data that List of the store reads.
pub record Reads : Type 0 where
  pub instance : Read AgentInstance
  pub template : Read AgentTemplate
  pub grants : Read (Table Text)
  pub skills : Read (List Skill)

-- len(EnabledSkills) == 0
abbrev pub names_none : List Text → Bool
names_none [] = true
names_none (_ ∷ _) = false

-- Whether a skill is kept, by its phase and the skills that the instance names.
unfoldable pub is_visible : List Text → Skill → Bool
is_visible enabled s = not s.unreachable && (names_none enabled || contains enabled s.skill_name)

abbrev pub resolved_skill : Skill → ResolvedSkill
resolved_skill s = record {
  name = s.skill_name;
  path = s.path;
  sha256 = s.sha256;
  revision = s.skill_revision;
}

-- Resolve, the loop over the skills.
unfoldable pub visible_skills : List Text → List Skill → List ResolvedSkill
unfolding is_visible
visible_skills enabled [] = []
visible_skills enabled (s ∷ ss) =
    let rest = visible_skills enabled ss in
    if is_visible enabled s then resolved_skill s ∷ rest else rest

-- `hash` is the fingerprint of a configuration without its revision.
module _ (h : Host) (c : Codec) (hash : ResolvedAgentConfig → Text) where
  -- Resolve, behind resolveModel.
  unfoldable pub chosen : Text → ResolvedAgentConfig → Option Text → Option ResolvedAgentConfig
  chosen selected cfg none = none
  chosen selected cfg (some id) = some (record cfg { selected_model = id; model_name = selected })

  -- Resolve, the model that the instance has selected.
  unfoldable pub with_model :
      Text → ModelTemplate → ResolvedAgentConfig → Option ResolvedAgentConfig
  unfolding chosen
  with_model selected t cfg =
      if is_empty selected
      then some (record cfg { model_name = t.default_model })
      else chosen selected cfg (resolve_model h selected t.providers)

  -- Resolve, where the model is chosen or an error.
  unfoldable pub or_fault :
      ResolvedAgentConfig
      → List AllowlistRule
      → Option ResolvedAgentConfig
      → Option ResolveFault × (List AllowlistRule × ResolvedAgentConfig)
  or_fault cfg rules none = (some model_fault, ([], cfg))
  or_fault cfg rules (some full) = (none, (rules, full))

  -- Resolve, the template's part; the rules are its allowlist.
  unfoldable pub with_template :
      AgentInstance
      → Read AgentTemplate
      → ResolvedAgentConfig
      → Option ResolveFault × (List AllowlistRule × ResolvedAgentConfig)
  unfolding with_model or_fault
  with_template inst missing cfg = (
    none,
    ([], if is_empty inst.template_ref then cfg else record cfg { agent = inst.template_ref }),
  )
  with_template inst broken cfg =
      if is_empty inst.template_ref then (none, ([], cfg)) else (some template_fault, ([], cfg))
  with_template inst (found t) cfg =
      let full = record cfg {
        agent = inst.template_ref;
        approval_policy = t.approval_policy;
        credentials = credentials h t.models.providers;
        instructions = merge_instructions t.instructions inst.user_instructions;
      } in
      if is_empty inst.template_ref
      then (none, ([], cfg))
      else or_fault cfg t.allowlist (with_model (trim_space inst.selected_model) t.models full)

  -- List of the grants' store: an object that is missing holds none.
  unfoldable pub learned : Read (Table Text) → Option (List GrantRecord)
  learned (found d) = some (list c d)
  learned missing = some []
  learned broken = none

  -- Resolve, behind the reads of the grants and of the skills.
  unfoldable pub compose :
      AgentInstance
      → List AllowlistRule
      → ResolvedAgentConfig
      → Option (List GrantRecord)
      → Read (List Skill)
      → Resolved
  unfolding visible_skills
  compose inst tmpl cfg none skills = fault grants_fault
  compose inst tmpl cfg (some records) missing = fault skills_fault
  compose inst tmpl cfg (some records) broken = fault skills_fault
  compose inst tmpl cfg (some records) (found ss) =
      let policy =
        if is_empty inst.approval_policy then cfg.approval_policy else inst.approval_policy in
      let full = record cfg {
        approval_policy = policy;
        allowlist = effective tmpl inst.allowlist (map rule records);
        skills = visible_skills inst.enabled_skills ss;
      } in
      config (record full { revision = hash full })

  -- Resolve, behind the template.
  unfoldable pub finish :
      AgentInstance
      → Reads
      → Option ResolveFault × (List AllowlistRule × ResolvedAgentConfig)
      → Resolved
  unfolding learned compose
  finish inst reads (some e, _) = fault e
  finish inst reads (none, (tmpl, cfg)) = compose inst tmpl cfg (learned reads.grants) reads.skills

  -- Resolve, for an instance that exists.
  unfoldable pub resolve_instance : Text → Text → AgentInstance → Reads → Resolved
  unfolding with_template finish
  resolve_instance user agent inst reads =
      let start = record empty_config {
        agent = agent;
        instance_name = instance_name h user agent;
        owner = inst.owner;
      } in
      finish inst reads (with_template inst reads.template start)

  -- Resolve
  unfoldable pub resolve : Text → Text → Reads → Resolved
  unfolding resolve_instance
  resolve user agent reads = elim reads.instance [
    | missing ↦ config empty_config
    | broken ↦ fault instance_fault
    | found inst ↦ resolve_instance user agent inst reads
  ]
