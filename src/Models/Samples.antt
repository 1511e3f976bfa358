-- ===== src/Models/Samples.antt =====
-- Two templates whose providers share a name, and the theorems at them.
use cubepilot.Prelude.{
  ◌≡◌, refl, ◌↔◌, ◌≢◌, List, [], ◌∷◌, map, none, some, false, Bool, Text, utf8, Elem, Distinct,
  text_eq, trim_space, contains, lookup, insert,
}
use cubepilot.Prelude.Sorting.{text_lt, sort}
use cubepilot.Names.Samples.{plain}
use cubepilot.Models.{
  TemplateProviderSpec, ModelTemplate, Provider, nothing_collected, collect, rendered_primary,
  allow, model_key, resolve_model,
}
use cubepilot.Models.Refs.{resolve_model_lem}
use cubepilot.Models.Primary.{primary-allowed}

abbrev vllm : TemplateProviderSpec
vllm = record {
  name = utf8 "vllm";
  endpoint = utf8 "http://a";
  credential = none;
  models = utf8 "qwen" ∷ utf8 "vllm/qwen" ∷ utf8 "glm" ∷ [];
}

abbrev keyed : TemplateProviderSpec
keyed = record {
  name = utf8 "cloud";
  endpoint = utf8 "http://b";
  credential = some (utf8 "absent");
  models = utf8 "big" ∷ [];
}

abbrev templates : List ModelTemplate
templates =
    record {
      template_name = utf8 "t1";
      default_model = utf8 "cloud/big";
      providers = keyed ∷ vllm ∷ [];
    }
    ∷ record { template_name = utf8 "t2"; default_model = utf8 "vllm/glm"; providers = vllm ∷ [] }
    ∷ []

abbrev none_ready : Text → Bool
none_ready n = false

abbrev rendered : List Provider
rendered =
    record { key = utf8 "vllm"; base_url = utf8 "http://a"; api_key = []; models = vllm.models }
    ∷ []

resolve_model_lem_example :
    (resolve_model plain (utf8 "vllm/glm") (keyed ∷ vllm ∷ []) ≡ some (utf8 "vllm/glm")) ↔ (
      (utf8 "vllm/glm" ≡ utf8 "vllm/glm")
      × (pr : TemplateProviderSpec) × Elem pr (keyed ∷ vllm ∷ [])
      × Elem (utf8 "vllm/glm") (map (model_key plain pr.name) pr.models))
resolve_model_lem_example =
    resolve_model_lem plain (utf8 "vllm/glm") (utf8 "vllm/glm") (keyed ∷ vllm ∷ [])

primary-allowed_example :
    Distinct (
      map
        (λ (p : Provider). p.key)
        (collect plain none_ready templates nothing_collected).providers)
    × ((collect plain none_ready templates nothing_collected).providers ≢ []
        → Elem
            (rendered_primary plain (collect plain none_ready templates nothing_collected))
            (allow plain (collect plain none_ready templates nothing_collected).providers))
primary-allowed_example = primary-allowed plain none_ready templates

-- The provider without its Secret is dropped, the name taken before is not taken twice, and the ref
-- that two ids share is allowed once.
collected :
    ((collect plain none_ready templates nothing_collected).providers ≡ rendered)
    × (allow plain rendered ≡ utf8 "vllm/glm" ∷ utf8 "vllm/qwen" ∷ [])
unfolding collect allow lookup insert text_eq sort contains model_key trim_space text_lt
collected = (refl, refl)
