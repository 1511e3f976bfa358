-- ===== src/Models.antt =====
-- internal/gateway/modelkey.go, internal/gateway/render.go, the loop of
-- internal/controller/openclawconfig_controller.go and the selection of internal/resolver/resolver.go:
-- which models an instance may use.
pub mod Refs
pub mod Primary
mod Samples
use cubepilot.Prelude.{
  ℕ, ◌+◌, ◌≡◌, Bool, true, false, not, ◌&&◌, ◌||◌, List, [], ◌∷◌, ◌++◌, map, Option, none, some,
  Text, utf8, is_empty, text_eq, contains, has_prefix, trim_space, Table, lookup, insert,
  if◌then◌else◌, ◌==◌,
}
use cubepilot.Prelude.Sorting.{sort, text_lt}
use cubepilot.Names.{Host, env_name_for_provider}

-- TemplateProviderSpec; `credential` is none where there is no reference.
pub record TemplateProviderSpec : Type 0 where
  pub name : Text
  pub endpoint : Text
  pub credential : Option Text
  pub models : List Text

-- What the rendering reads of an AgentTemplate.
pub record ModelTemplate : Type 0 where
  pub template_name : Text
  pub default_model : Text
  pub providers : List TemplateProviderSpec

-- gateway.Provider
pub record Provider : Type 0 where
  pub key : Text
  pub base_url : Text
  pub api_key : Text
  pub models : List Text

-- The variables of the controller's loop.
pub record Collected : Type 0 where
  pub claimed : Table Text
  pub providers : List Provider
  pub primary : Text

abbrev pub nothing_collected : Collected
nothing_collected = record { claimed = []; providers = []; primary = [] }

-- ResolvedCredential
pub record ResolvedCredential : Type 0 where
  pub env : Text
  pub secret_name : Text

-- The name of the Secret that a provider refers to; empty where there is none.
abbrev pub secret_of : TemplateProviderSpec → Text
secret_of pr = elim pr.credential [ none ↦ [] | some n ↦ n ]

-- len(models) == 0
abbrev pub no_models : List Text → Bool
no_models [] = true
no_models (_ ∷ _) = false

-- The second result of a lookup.
abbrev pub present : Option Text → Bool
present none = false
present (some _) = true

-- MergeInstructions
unfoldable pub merge_instructions : Text → Text → Text
merge_instructions template user =
    let t = trim_space template in
    let u = trim_space user in
    if is_empty t then u else if is_empty u then t else t ++ utf8 "\n\n" ++ u

module _ (h : Host) where
  -- ModelKey
  unfoldable pub model_key : Text → Text → Text
  model_key provider model_id =
      let p = trim_space provider in
      let m = trim_space model_id in
      if is_empty p
      then m
      else if is_empty m
      then p
      else if has_prefix (h.to_lower m) (h.to_lower p ++ b'/' ∷ [])
      then m
      else p ++ b'/' ∷ m

  -- The refs of one provider.
  abbrev pub refs : Provider → List Text
  refs p = map (model_key p.key) p.models

  -- Render: allowOut with its set `allowed`, over the ids of one provider ...
  unfoldable pub allow_refs : List Text → List Text → List Text
  allow_refs [] out = out
  allow_refs (k ∷ ks) out = allow_refs ks (if contains out k then out else out ++ k ∷ [])

  -- ... and over the providers.
  unfoldable pub allow_loop : List Provider → List Text → List Text
  unfolding allow_refs
  allow_loop [] out = out
  allow_loop (p ∷ ps) out = allow_loop ps (allow_refs (refs p) out)

  -- Render: modelPolicy.allow
  unfoldable pub allow : List Provider → List Text
  unfolding allow_loop
  allow ps = sort text_lt (allow_loop ps [])

  -- Render: idCount
  unfoldable pub id_count : Text → List Text → ℕ
  id_count id [] = 0
  id_count id (j ∷ js) = (if text_eq j id then 1 else 0) + id_count id js

  unfoldable pub all_ids : List Provider → List Text
  all_ids [] = []
  all_ids (p ∷ ps) = p.models ++ all_ids ps

  -- Render: modelsOut, each entry with its alias, over the ids of one provider ...
  unfoldable pub provider_entries :
      List Text → Text → List Text → Table (Option Text) → Table (Option Text)
  unfolding id_count
  provider_entries ids key [] out = out
  provider_entries ids key (id ∷ rest) out =
      provider_entries ids key rest
        (insert (model_key key id) (if id_count id ids == 1 then some id else none) out)

  -- ... and over the providers.
  unfoldable pub model_entries :
      List Text → List Provider → Table (Option Text) → Table (Option Text)
  unfolding provider_entries
  model_entries ids [] out = out
  model_entries ids (p ∷ ps) out = model_entries ids ps (entries p.models out)
    where
      entries : List Text → Table (Option Text) → Table (Option Text)
      entries [] out = out
      entries (id ∷ rest) out =
          entries rest
            (insert (model_key p.key id) (if id_count id ids == 1 then some id else none) out)

  -- Whether one of the ids has the given ref.
  unfoldable pub serves : Text → List Text → Text → Bool
  serves name [] ref = false
  serves name (id ∷ ids) ref = text_eq (model_key name id) ref || serves name ids ref

  -- The body of the controller's inner loop. `ready` tells whether a Secret can be read.
  unfoldable pub collect_provider :
      (Text → Bool) → ModelTemplate → Collected → TemplateProviderSpec → Collected
  unfolding serves
  collect_provider ready t c pr =
      let credential = not (is_empty (secret_of pr)) in
      let p : Provider = record {
        key = pr.name;
        base_url = pr.endpoint;
        api_key = if credential then env_name_for_provider h pr.name else [];
        models = pr.models;
      } in
      if is_empty pr.endpoint || no_models pr.models
      then c
      else if present (lookup pr.name c.claimed)
      then c
      else if credential && not (ready (secret_of pr))
      then c
      else record {
        claimed = insert pr.name t.template_name c.claimed;
        providers = c.providers ++ p ∷ [];
        primary =
            if is_empty c.primary && serves pr.name pr.models t.default_model
            then t.default_model
            else c.primary;
      }

  -- The inner loop.
  unfoldable pub collect_template :
      (Text → Bool) → ModelTemplate → List TemplateProviderSpec → Collected → Collected
  unfolding collect_provider
  collect_template ready t [] c = c
  collect_template ready t (pr ∷ prs) c =
      collect_template ready t prs (collect_provider ready t c pr)

  -- The outer loop.
  unfoldable pub collect : (Text → Bool) → List ModelTemplate → Collected → Collected
  unfolding collect_template
  collect ready [] c = c
  collect ready (t ∷ ts) c = collect ready ts (collect_template ready t t.providers c)

  -- The first ref of the first provider.
  unfoldable pub first_ref : List Provider → Text
  first_ref [] = []
  first_ref (p ∷ _) = elim p.models [ [] ↦ [] | id ∷ _ ↦ model_key p.key id ]

  -- The primary that is rendered.
  unfoldable pub rendered_primary : Collected → Text
  rendered_primary c = if is_empty c.primary then first_ref c.providers else c.primary

  -- resolveModel
  unfoldable pub resolve_model : Text → List TemplateProviderSpec → Option Text
  unfolding serves
  resolve_model selected [] = none
  resolve_model selected (pr ∷ prs) =
      let rest = resolve_model selected prs in
      if serves pr.name pr.models selected then some selected else rest

  -- Resolve: the credentials
  unfoldable pub credentials : List TemplateProviderSpec → List ResolvedCredential
  credentials [] = []
  credentials (pr ∷ prs) =
      let rest = credentials prs in
      if is_empty pr.endpoint || no_models pr.models || is_empty (secret_of pr)
      then rest
      else record { env = env_name_for_provider h pr.name; secret_name = secret_of pr } ∷ rest
