-- ===== src/Allowlist/Effective.antt =====
-- Effective: what an instance may run without asking.
use cubepilot.Prelude.{
  ◌≡◌, refl, sym, ◌⊎◌, ◌↔◌, inl, inr, Bool, true, false, not, ◌&&◌, ◌||◌, List, [], ◌∷◌, ◌++◌, map,
  subst, arith, Text, is_empty, contains, Elem→contains, text_eq, Elem, Elem-map_inv, Distinct, All,
  All-elem, All-append, Elem-append_left, Elem-append_right, Elem-append_cases, ◌==◌, ==_iff,
}
use cubepilot.Allowlist.{
  AllowlistRule, rule_key, merge, default, effective, kubectl_read_arg_pattern, safe_arg_pattern,
  kubectl_global_flag, kubectl_read_verbs,
}
use cubepilot.Allowlist.Union.{merge_sound, merge_complete, merge-prefix}
use cubepilot.Allowlist.Identity.{IsCommand, rule_key-injective}

has_bar : Text → Bool
has_bar [] = false
has_bar (c ∷ s) = c == b'|' || has_bar s

has_bar-false : (s : Text) → has_bar s ≡ false → ¬ Elem b'|' s
unfolding has_bar
has_bar-false [] h m = m
has_bar-false (c ∷ s) h (inl e) = ground (arith, ==_iff c b'|')
has_bar-false (c ∷ s) h (inr m) = has_bar-false s (ground arith) m

commands : List AllowlistRule → Bool
commands [] = true
commands (r ∷ rs) = not (is_empty r.pattern || has_bar r.pattern) && commands rs

commands_sound : (rs : List AllowlistRule) → commands rs ≡ true → All IsCommand rs
unfolding commands
commands_sound [] h = tt
commands_sound (r ∷ rs) h =
    ((ground arith, has_bar-false r.pattern (ground arith)), commands_sound rs (ground arith))

-- The test that no key occurs twice.
unfoldable pub distinct_keys : List Text → Bool
distinct_keys [] = true
distinct_keys (k ∷ ks) = not (contains ks k) && distinct_keys ks

pub distinct_keys_sound : (ks : List Text) → distinct_keys ks ≡ true → Distinct ks
unfolding distinct_keys
distinct_keys_sound [] h = tt
distinct_keys_sound (k ∷ ks) h =
    (λ m. ground (arith, Elem→contains ks k m), distinct_keys_sound ks (ground arith))

pub default-IsCommand : All IsCommand default
default-IsCommand = commands_sound default (unfold commands default has_bar in refl)

default-Distinct : Distinct (map rule_key default)
default-Distinct = distinct_keys_sound (map rule_key default) (
    unfold distinct_keys default contains text_eq kubectl_read_arg_pattern safe_arg_pattern
      kubectl_global_flag kubectl_read_verbs in
    refl)

-- Whatever a template, an instance and its grants say, the builtin rules stand at the front of the
-- effective allowlist, unchanged and in their order: no layer freezes, shadows or removes one.
pub effective-prefix :
    (t i g : List AllowlistRule) → (r : List AllowlistRule) × (effective t i g ≡ default ++ r)
unfolding effective
effective-prefix t i g =
    merge-prefix default (t ++ i ++ g) default-Distinct
      (λ x h. (All-elem IsCommand x default default-IsCommand h).0)

-- The layers of an effective allowlist.
abbrev pub InLayer :
    AllowlistRule → List AllowlistRule → List AllowlistRule → List AllowlistRule → Type 0
InLayer x t i g = Elem x default ⊎ Elem x t ⊎ Elem x i ⊎ Elem x g

layer→Elem :
    (x : AllowlistRule) (t i g : List AllowlistRule)
    → Elem x t ⊎ Elem x i ⊎ Elem x g
    → Elem x (t ++ i ++ g)
layer→Elem x t i g (inl h) = Elem-append_left x (t ++ i) g (Elem-append_left x t i h)
layer→Elem x t i g (inr (inl h)) = Elem-append_left x (t ++ i) g (Elem-append_right x t i h)
layer→Elem x t i g (inr (inr h)) = Elem-append_right x (t ++ i) g h

Elem→layer :
    (x : AllowlistRule) (t i g : List AllowlistRule)
    → Elem x (t ++ i ++ g)
    → Elem x t ⊎ Elem x i ⊎ Elem x g
Elem→layer x t i g h = elim (Elem-append_cases x (t ++ i) g h) [
  | inr r ↦ inr (inr r)
  | inl l ↦ elim (Elem-append_cases x t i l) [ inl a ↦ inl a | inr b ↦ inr (inl b) ]
]

-- A merge of lists of rules that name commands holds exactly the rules of the two lists.
pub merge_iff :
    (x : AllowlistRule) (a b : List AllowlistRule)
    → All IsCommand a
    → All IsCommand b
    → Elem x (merge a b) ↔ (Elem x a ⊎ Elem x b)
merge_iff x a b ha hb = (merge_sound x a b, back)
  where
    command : (y : AllowlistRule) → Elem y a ⊎ Elem y b → IsCommand y
    command y (inl h) = All-elem IsCommand y a ha h
    command y (inr h) = All-elem IsCommand y b hb h

    back : Elem x a ⊎ Elem x b → Elem x (merge a b)
    back h =
        let k = merge_complete x a b h (command x h).0 in
        let (e, m, p) = Elem-map_inv rule_key (rule_key x) (merge a b) k in
        let same = rule_key-injective x e (command x h) (command e (merge_sound e a b m)) p in
        subst (λ (z : AllowlistRule). Elem z (merge a b)) (sym same) m

-- Where every layer's rules name commands, a rule is effective exactly if it is in some layer:
-- the builtin, the template's, the instance's or the learned grants.
pub effective_iff :
    (x : AllowlistRule) (t i g : List AllowlistRule)
    → All IsCommand t
    → All IsCommand i
    → All IsCommand g
    → Elem x (effective t i g) ↔ InLayer x t i g
unfolding effective
effective_iff x t i g ht hi hg =
    let both =
      merge_iff x default (t ++ i ++ g) default-IsCommand
        (All-append IsCommand (t ++ i) g (All-append IsCommand t i ht hi) hg) in
    (
      λ h. elim (both.0 h) [ inl d ↦ inl d | inr r ↦ inr (Elem→layer x t i g r) ],
      λ h. elim h [ inl d ↦ both.1 (inl d) | inr r ↦ both.1 (inr (layer→Elem x t i g r)) ],
    )
