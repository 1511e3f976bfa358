-- ===== src/Allowlist.antt =====
-- internal/allowlist/allowlist.go: the safe-command allowlist. The rule type is that of
-- internal/api/v1alpha1/agenttemplate_types.go.
pub mod Union
pub mod Uniting
pub mod Effective
pub mod Identity
pub mod Labels
mod Samples
use cubepilot.Prelude.{
  ℕ, ◌+◌, ◌≡◌, Bool, true, false, ◌&&◌, ◌||◌, List, [], ◌∷◌, ◌++◌, map, Option, none, some, String,
  Text, utf8, text_eq, is_empty, contains, text_contains, has_prefix, trim_space, leb,
  if◌then◌else◌,
}

pub record AllowlistRule : Type 0 where
  pub pattern : Text
  pub arg_pattern : Text

-- kubectlGlobalFlag
unfoldable pub kubectl_global_flag : Text
kubectl_global_flag =
    utf8
      "--[A-Za-z0-9][A-Za-z0-9-]*(=[A-Za-z0-9_./:=,%+*?@~\"#'-]+)?|-[a-zA-Z0-9](\\s+[A-Za-z0-9_./:=,%+*?@~\"#'-]+)?|--namespace\\s+[A-Za-z0-9_./:=,%+*?@~\"#'-]+|--context\\s+[A-Za-z0-9_./:=,%+*?@~\"#'-]+"

-- kubectlReadVerbs
unfoldable pub kubectl_read_verbs : Text
kubectl_read_verbs =
    utf8
      "get|list|watch|describe|logs|events|top|api-resources|api-versions|explain|version|diff|cluster-info"

-- kubectlReadArgPattern
unfoldable pub kubectl_read_arg_pattern : Text
kubectl_read_arg_pattern =
    utf8 "^(("
    ++ kubectl_global_flag
    ++ utf8 ")\\s+)*("
    ++ kubectl_read_verbs
    ++ utf8 ")(\\b[\\s\\S]*)?$"

-- safeArgPattern
unfoldable pub safe_arg_pattern : Text
safe_arg_pattern = utf8 "^[A-Za-z0-9_./:=,%+*?@~\"#'-]+(\\s+[A-Za-z0-9_./:=,%+*?@~\"#'-]+)*$"

-- safeBins
unfoldable pub safe_bins : List Text
safe_bins =
    utf8 "ls"
    ∷ utf8 "cat"
    ∷ utf8 "pwd"
    ∷ utf8 "grep"
    ∷ utf8 "head"
    ∷ utf8 "tail"
    ∷ utf8 "wc"
    ∷ utf8 "jq"
    ∷ utf8 "echo"
    ∷ utf8 "printf"
    ∷ utf8 "which"
    ∷ []

safe_rule : Text → AllowlistRule
safe_rule b = record { pattern = b; arg_pattern = safe_arg_pattern }

-- Default
unfoldable pub default : List AllowlistRule
unfolding safe_bins safe_rule
default =
    record { pattern = utf8 "kubectl"; arg_pattern = kubectl_read_arg_pattern }
    ∷ map safe_rule safe_bins

-- The identity `Pattern + "|" + ArgPattern`.
abbrev pub rule_key : AllowlistRule → Text
rule_key e = e.pattern ++ b'|' ∷ e.arg_pattern

-- The variables `seen` and `out` of Merge; `seen` is a map used as a set.
pub record Merging : Type 0 where
  pub seen : List Text
  pub out : List AllowlistRule

-- the closure `add`
unfoldable pub add : Merging → AllowlistRule → Merging
add m e =
    if is_empty e.pattern
    then m
    else if contains m.seen (rule_key e)
    then m
    else record { seen = m.seen ++ rule_key e ∷ []; out = m.out ++ e ∷ [] }

unfoldable pub add_all : Merging → List AllowlistRule → Merging
add_all m [] = m
add_all m (e ∷ es) = add_all (add m e) es

-- Merge
unfoldable pub merge : List AllowlistRule → List AllowlistRule → List AllowlistRule
unfolding add_all add
merge existing desired = (add_all (add_all (record { seen = []; out = [] }) existing) desired).out

-- Effective
unfoldable pub effective :
    List AllowlistRule → List AllowlistRule → List AllowlistRule → List AllowlistRule
effective template instance_rules grants = merge default (template ++ instance_rules ++ grants)

-- BuiltinLabel
unfoldable pub builtin_label : AllowlistRule → Text
unfolding safe_bins
builtin_label e =
    if text_eq e.pattern (utf8 "kubectl")
    then if text_eq e.arg_pattern kubectl_read_arg_pattern
      then utf8 "kubectl — read-only operations (get/list/watch/describe/logs/events/top/…)"
      else []
    else if contains safe_bins e.pattern && text_eq e.arg_pattern safe_arg_pattern
    then e.pattern ++ utf8 " — read-only, plain args"
    else []

-- What Validate refuses a rule for.
pub data RuleError : Type 0 where
  pattern_required pattern_has_separator : RuleError
  named_group flag_group posix_class unicode_property : RuleError
  bad_regexp : RuleError

abbrev is_letter_or_dash : ℕ → Bool
is_letter_or_dash c =
    leb b'a' c && leb c b'z' || leb b'A' c && leb c b'Z' || leb b'-' c && leb c b'-'

-- `\(\?[a-zA-Z-]` matches somewhere.
unfoldable pub has_flag_group : Text → Bool
has_flag_group [] = false
has_flag_group (a ∷ []) = false
has_flag_group (a ∷ b ∷ []) = false
has_flag_group (a ∷ b ∷ c ∷ s) =
    (text_eq (a ∷ b ∷ []) (utf8 "(?") && is_letter_or_dash c) || has_flag_group (b ∷ c ∷ s)

-- jsIncompatible: the first construct of the list that the pattern uses.
unfoldable pub js_incompatible : Text → Option RuleError
unfolding has_flag_group
js_incompatible s =
    if text_contains s (utf8 "(?P<")
    then some named_group
    else if has_flag_group s
    then some flag_group
    else if text_contains s (utf8 "[[:")
    then some posix_class
    else if text_contains s (utf8 "\\p{") || text_contains s (utf8 "\\P{")
    then some unicode_property
    else none

-- `compiles` is regexp.Compile of RE2, as a test. Validate; `none` is a nil error.
unfoldable pub validate : (Text → Bool) → AllowlistRule → Option RuleError
validate compiles r =
    if is_empty (trim_space r.pattern)
    then some pattern_required
    else if text_contains r.pattern (utf8 "|")
    then some pattern_has_separator
    else if is_empty r.arg_pattern
    then none
    else elim (js_incompatible r.arg_pattern) [
      | some e ↦ some e
      | none ↦ if compiles r.arg_pattern then none else some bad_regexp
    ]
