-- ===== src/Resolver/Composing.antt =====
-- Resolve of internal/resolver/resolver.go: what every part of a configuration comes from.
use cubepilot.Prelude.{
  ◌≡◌, true, false, List, [], ◌++◌, map, Option, none, Text, is_empty, trim_space, Table, Elem, ◌⊎◌,
  ◌↔◌,
}
use cubepilot.Names.{Host}
use cubepilot.Allowlist.{AllowlistRule, default, rule_key}
use cubepilot.Grants.{Codec, GrantRecord, list, rule}
use cubepilot.Models.{TemplateProviderSpec, model_key}
use cubepilot.Resolver.{
  Read, found, missing, AgentTemplate, AgentInstance, Skill, ResolvedSkill, ResolvedAgentConfig,
  ResolveFault, Reads, resolved_skill,
}

module _ (h : Host) (c : Codec) (hash : ResolvedAgentConfig → Text) where
  -- The model of a configuration: none is selected, or the one that the instance names, and a provider
  -- of the template serves it.
  abbrev pub IsServed : AgentInstance → Read AgentTemplate → Text → Type 0
  IsServed inst read ref =
      (ref ≡ [])
      ⊎ ((t : AgentTemplate) × (read ≡ found t)
          × (ref ≡ trim_space inst.selected_model)
          × (pr : TemplateProviderSpec) × Elem pr t.models.providers
          × Elem ref (map (model_key h pr.name) pr.models))

  -- The template's rules: none without a template or where it does not exist, else its own.
  pub data TemplateLayer (inst : AgentInstance) (read : Read AgentTemplate)
      : List AllowlistRule → Type 0 where
    unnamed : is_empty inst.template_ref ≡ true → TemplateLayer inst read []
    absent : read ≡ missing → TemplateLayer inst read []
    taken : (t : AgentTemplate) → read ≡ found t → TemplateLayer inst read t.allowlist

  -- The grants: none where the user has no object of them, else those that List gives.
  pub data GrantLayer (read : Read (Table Text)) : List GrantRecord → Type 0 where
    unstored : read ≡ missing → GrantLayer read []
    stored : (stock : Table Text) → read ≡ found stock → GrantLayer read (list c stock)

  -- Every rule with a command is in the allowlist, by its identity.
  abbrev pub Allows : ResolvedAgentConfig → List AllowlistRule → Type 0
  Allows cfg rules =
      (r : AllowlistRule)
      → Elem r rules
      → is_empty r.pattern ≡ false
      → Elem (rule_key r) (map rule_key cfg.allowlist)

  -- A skill that is kept: it is reachable, and the instance names it or none at all.
  abbrev pub IsKept : AgentInstance → Skill → Type 0
  IsKept inst s =
      (s.unreachable ≡ false) × ((inst.enabled_skills ≡ []) ⊎ Elem s.skill_name inst.enabled_skills)

  -- What a configuration is made of.
  pub record IsComposed (inst : AgentInstance) (reads : Reads) (cfg : ResolvedAgentConfig)
      : Type 0 where
    -- The builtin rules stand at the front of the allowlist.
    pub builtin : (rest : List AllowlistRule) × (cfg.allowlist ≡ default ++ rest)
    -- The template was read, if there is one, and its rules are allowed.
    pub template :
        (rules : List AllowlistRule) × TemplateLayer inst reads.template rules × Allows cfg rules
    -- The instance's own rules are allowed.
    pub own : Allows cfg inst.allowlist
    -- The grants were read, and the rule of each one that List shows is allowed.
    pub grants :
        (records : List GrantRecord) × GrantLayer reads.grants records
        × ((g : GrantRecord)
            → Elem g records
            → Elem (rule_key (rule g)) (map rule_key cfg.allowlist))
    -- The instance's own policy, where it has one.
    pub policy : is_empty inst.approval_policy ≡ false → cfg.approval_policy ≡ inst.approval_policy
    pub model : IsServed inst reads.template cfg.selected_model
    -- The skills are those of the list that are reachable and that the instance does not leave out.
    pub skills :
        (ss : List Skill) × (reads.skills ≡ found ss)
        × ((r : ResolvedSkill)
            → Elem r cfg.skills ↔ (s : Skill) × Elem s ss × IsKept inst s × (r ≡ resolved_skill s))

  -- The model that the template's part has chosen.
  abbrev Served :
      AgentInstance
      → Read AgentTemplate
      → Option ResolveFault × (List AllowlistRule × ResolvedAgentConfig)
      → Type 0
  Served inst read z = IsServed inst read z.1.1.selected_model

  -- Where the template's part goes on, its rules are those of the layer.
  Layered :
      AgentInstance
      → Read AgentTemplate
      → Option ResolveFault × (List AllowlistRule × ResolvedAgentConfig)
      → Type 0
  Layered inst read z = z.0 ≡ none → TemplateLayer inst read z.1.0
