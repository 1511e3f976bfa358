-- ===== src/Allowlist/Samples.antt =====
-- Tests of the allowlist's definitions, and its theorems at concrete rules.
use cubepilot.Prelude.{
  ◌≡◌, refl, ◌↔◌, Bool, true, List, [], ◌∷◌, ◌++◌, none, some, Text, utf8, text_eq, contains,
  trim_space, text_contains, Elem,
}
use cubepilot.Allowlist.{
  AllowlistRule, default, merge, effective, validate, pattern_required, pattern_has_separator,
  flag_group, js_incompatible,
}
use cubepilot.Allowlist.Effective.{effective-prefix, effective_iff, InLayer}
use cubepilot.Allowlist.Identity.{validate-IsCommand, IsCommand}

abbrev helm : AllowlistRule
helm = record { pattern = utf8 "helm"; arg_pattern = utf8 "^list$" }

abbrev any_helm : AllowlistRule
any_helm = record { pattern = utf8 "helm"; arg_pattern = [] }

abbrev nameless : AllowlistRule
nameless = record { pattern = []; arg_pattern = utf8 "x" }

abbrev accept_all : Text → Bool
accept_all s = true

merge_keeps_first : merge (helm ∷ nameless ∷ []) (any_helm ∷ helm ∷ []) ≡ helm ∷ any_helm ∷ []
unfolding merge text_eq contains
merge_keeps_first = refl

validate_blank :
    validate accept_all (record { pattern = utf8 " \t"; arg_pattern = [] }) ≡ some pattern_required
unfolding validate trim_space
validate_blank = refl

validate_bar :
    validate accept_all (record { pattern = utf8 "a|b"; arg_pattern = utf8 "c" })
    ≡ some pattern_has_separator
unfolding validate trim_space text_contains
validate_bar = refl

validate_flags :
    validate accept_all (record { pattern = utf8 "a"; arg_pattern = utf8 "^(?i)x$" })
    ≡ some flag_group
unfolding validate trim_space text_contains js_incompatible text_eq
validate_flags = refl

helm_valid : validate accept_all helm ≡ none
unfolding validate trim_space text_contains js_incompatible text_eq
helm_valid = refl

helm-IsCommand : IsCommand helm
helm-IsCommand = (validate-IsCommand accept_all helm helm_valid).0

effective-prefix_example :
    (r : List AllowlistRule) × (effective (any_helm ∷ []) (helm ∷ []) [] ≡ default ++ r)
effective-prefix_example = effective-prefix (any_helm ∷ []) (helm ∷ []) []

effective_iff_example : Elem helm (effective [] (helm ∷ []) []) ↔ InLayer helm [] (helm ∷ []) []
effective_iff_example = effective_iff helm [] (helm ∷ []) [] tt (helm-IsCommand, tt) tt
