-- ===== src/Allowlist/Identity.antt =====
-- The identity `pattern + "|" + argPattern` of a rule, and why Validate forbids `|` in a pattern.
use cubepilot.Prelude.{
  ◌≡◌, refl, inl, inr, Bool, true, false, [], ◌∷◌, ◌++◌, none, arith, Text, utf8, is_empty,
  text_contains, trim_space, Elem, Bool-cases, ==_iff,
}
use cubepilot.Allowlist.{AllowlistRule, rule_key, validate}

-- A rule that names a command: what Validate demands of a pattern.
abbrev pub IsCommand : AllowlistRule → Type 0
IsCommand r = (is_empty r.pattern ≡ false) × ¬ Elem b'|' r.pattern

split_unique :
    (p q a b : Text)
    → ¬ Elem b'|' p
    → ¬ Elem b'|' q
    → (p ++ b'|' ∷ a) ≡ (q ++ b'|' ∷ b)
    → (p ≡ q) × (a ≡ b)
split_unique [] [] a b hp hq e = (refl, cc)
split_unique [] (y ∷ q) a b hp hq e = absurd (hq (inl (cc)))
split_unique (x ∷ p) [] a b hp hq e = absurd (hp (inl (cc)))
split_unique (x ∷ p) (y ∷ q) a b hp hq e =
    let t : (p ++ b'|' ∷ a) ≡ (q ++ b'|' ∷ b) = cc in
    let (l, r) = split_unique p q a b (λ h. hp (inr h)) (λ h. hq (inr h)) t in (cc, r)

-- Two rules that name commands and have one identity are one rule.
pub rule_key-injective :
    (r s : AllowlistRule) → IsCommand r → IsCommand s → rule_key r ≡ rule_key s → r ≡ s
rule_key-injective r s hr hs e =
    let (p, a) = split_unique r.pattern s.pattern r.arg_pattern s.arg_pattern hr.1 hs.1 e in
    λ i. record { pattern = p i; arg_pattern = a i }

text_contains-bar : (s : Text) → text_contains s (utf8 "|") ≡ false → ¬ Elem b'|' s
unfolding text_contains
text_contains-bar [] h m = m
text_contains-bar (c ∷ s) h (inl e) = ground (arith, ==_iff c b'|')
text_contains-bar (c ∷ s) h (inr m) = text_contains-bar s (ground arith) m

is_empty-trim_space : (s : Text) → is_empty s ≡ true → is_empty (trim_space s) ≡ true
unfolding trim_space
is_empty-trim_space [] h = refl
is_empty-trim_space (c ∷ s) h = cc

module _ (compiles : Text → Bool) where
  -- A rule that Validate accepts names a command, with a pattern that is not blank.
  pub validate-IsCommand :
      (r : AllowlistRule)
      → validate compiles r ≡ none
      → IsCommand r × (is_empty (trim_space r.pattern) ≡ false)
  unfolding validate
  validate-IsCommand r h = elim (Bool-cases (is_empty (trim_space r.pattern))) [
    | inl blank ↦ ground arith
    | inr named ↦ elim (Bool-cases (text_contains r.pattern (utf8 "|"))) [
      | inl bar ↦ ground arith
      | inr free ↦
          ((ground (arith, is_empty-trim_space r.pattern), text_contains-bar r.pattern free), named)
    ]
  ]

  -- Of two accepted rules with one identity there is one: the identity that Merge and the grants
  -- go by confuses no two rules that Validate has passed.
  pub validated_identity :
      (r s : AllowlistRule)
      → validate compiles r ≡ none
      → validate compiles s ≡ none
      → rule_key r ≡ rule_key s
      → r ≡ s
  validated_identity r s hr hs e =
      rule_key-injective r s (validate-IsCommand r hr).0 (validate-IsCommand s hs).0 e
