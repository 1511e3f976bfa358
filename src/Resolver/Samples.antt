-- ===== src/Resolver/Samples.antt =====
-- An instance that selects a model of its template, and the theorem at it.
use cubepilot.Prelude.{false, true, [], ◌∷◌, none, Text, utf8}
use cubepilot.Names.Samples.{plain}
use cubepilot.Grants.Samples.{numbers, stored_grants}
use cubepilot.Resolver.{
  AgentTemplate, AgentInstance, Skill, ResolvedAgentConfig, Reads, found, config, resolve, Resolved,
  fault, empty_config,
}

abbrev template : AgentTemplate
template = record {
  models = record {
    template_name = utf8 "ops";
    default_model = utf8 "vllm/glm";
    providers =
        record {
          name = utf8 "vllm";
          endpoint = utf8 "http://a";
          credential = none;
          models = utf8 "glm" ∷ [];
        }
        ∷ [];
  };
  approval_policy = utf8 "Allowlist";
  allowlist = record { pattern = utf8 "helm"; arg_pattern = utf8 "^list$" } ∷ [];
  instructions = utf8 "Be brief.";
}

abbrev instance_of_ann : AgentInstance
instance_of_ann = record {
  owner = utf8 "ann";
  template_ref = utf8 "ops";
  selected_model = utf8 " vllm/glm ";
  approval_policy = utf8 "AlwaysAsk";
  allowlist = [];
  user_instructions = [];
  enabled_skills = [];
}

abbrev skill : Text → Skill
skill name = record {
  skill_name = name;
  path = [];
  sha256 = [];
  skill_revision = utf8 "v1";
  unreachable = false;
}

abbrev reads : Reads
reads = record {
  instance = found instance_of_ann;
  template = found template;
  grants = found stored_grants;
  skills = found (skill (utf8 "k8s") ∷ (record (skill (utf8 "gone")) { unreachable = true }) ∷ []);
}

abbrev config_or : ResolvedAgentConfig → Resolved → ResolvedAgentConfig
config_or d (config c) = c
config_or d (fault e) = d

abbrev resolved : ResolvedAgentConfig
resolved =
    config_or empty_config
      (resolve plain numbers (λ _. utf8 "r") (utf8 "ann") (utf8 "default") reads)
