-- ===== src/Allowlist/Labels.antt =====
-- BuiltinLabel: which rules the platform may present as read-only.
use cubepilot.Prelude.{
  ℕ, ◌≡◌, refl, sym, ap, ◌∙◌, ◌≢◌, ◌⊎◌, ◌↔◌, inl, inr, false, [], ◌∷◌, ◌++◌, map, subst, Text, utf8,
  contains, contains→Elem, Elem→contains, text_eq, text_eq_refl, text_eq_cases, Elem, Elem-map,
  Elem-map_inv, Bool-cases,
}
use cubepilot.Allowlist.{
  AllowlistRule, default, safe_bins, safe_rule, builtin_label, kubectl_read_arg_pattern,
  safe_arg_pattern,
}

safe_bins-kubectl : contains safe_bins (utf8 "kubectl") ≡ false
unfolding contains safe_bins text_eq
safe_bins-kubectl = refl

append-ne-nil : (a : Text) (c : ℕ) (b : Text) → (a ++ c ∷ b) ≢ []
append-ne-nil [] c b e = cc
append-ne-nil (x ∷ a) c b e = cc

abbrev kubectl_rule : AllowlistRule
kubectl_rule = record { pattern = utf8 "kubectl"; arg_pattern = kubectl_read_arg_pattern }

default_lem : default ≡ kubectl_rule ∷ map safe_rule safe_bins
unfolding default
default_lem = refl

abbrev kubectl_label : Text
kubectl_label = utf8 "kubectl — read-only operations (get/list/watch/describe/logs/events/top/…)"

label_cases :
    (p a : Text)
    → ((p ≡ utf8 "kubectl")
        × (a ≡ kubectl_read_arg_pattern)
        × (builtin_label (record { pattern = p; arg_pattern = a }) ≡ kubectl_label))
      ⊎ (Elem p safe_bins
          × (a ≡ safe_arg_pattern)
          × (builtin_label (record { pattern = p; arg_pattern = a })
              ≡ p ++ utf8 " — read-only, plain args"))
      ⊎ (builtin_label (record { pattern = p; arg_pattern = a }) ≡ [])
unfolding builtin_label
label_cases p a = elim (text_eq_cases p (utf8 "kubectl")) [
  | inl (e, t) ↦ elim (text_eq_cases a kubectl_read_arg_pattern) [
    | inl (e', t') ↦ inl (e, e', rw (t, t'))
    | inr (e', t') ↦ inr (inr (rw (t, t')))
  ]
  | inr (e, t) ↦ elim (Bool-cases (contains safe_bins p)) [
    | inr f ↦ inr (inr (rw (t, f)))
    | inl c ↦ elim (text_eq_cases a safe_arg_pattern) [
      | inl (e', t') ↦ inr (inl (contains→Elem safe_bins p c, e', rw (t, c, t')))
      | inr (e', t') ↦ inr (inr (rw (t, c, t')))
    ]
  ]
]

kubectl_labelled : builtin_label kubectl_rule ≡ kubectl_label
unfolding builtin_label
kubectl_labelled = rw (text_eq_refl kubectl_read_arg_pattern) (unfold text_eq in refl)

not_kubectl : (b : Text) → Elem b safe_bins → text_eq b (utf8 "kubectl") ≡ false
not_kubectl b m = elim (text_eq_cases b (utf8 "kubectl")) [
  | inr (n, f) ↦ f
  | inl (e, t) ↦ cc (
    safe_bins-kubectl,
    Elem→contains safe_bins (utf8 "kubectl") (subst (λ z. Elem z safe_bins) e m),
  )
]

safe_labelled :
    (b : Text)
    → Elem b safe_bins
    → builtin_label (safe_rule b) ≡ b ++ utf8 " — read-only, plain args"
unfolding builtin_label safe_rule
safe_labelled b m = rw (not_kubectl b m, Elem→contains safe_bins b m, text_eq_refl safe_arg_pattern)

-- A rule gets a read-only label exactly if it is one of the builtin rules.
pub builtin_label_iff : (e : AllowlistRule) → (builtin_label e ≢ []) ↔ Elem e default
unfolding safe_rule
builtin_label_iff e = rw default_lem (forth, back)
  where
    forth : builtin_label e ≢ [] → Elem e (kubectl_rule ∷ map safe_rule safe_bins)
    forth h = elim (label_cases e.pattern e.arg_pattern) [
      | inl (p, a, _) ↦ inl (λ i. record { pattern = p i; arg_pattern = a i })
      | inr (inl (m, a, _)) ↦ inr (
          subst (λ (z : AllowlistRule). Elem z (map safe_rule safe_bins))
            (λ i. record { pattern = e.pattern; arg_pattern = sym a i })
            (Elem-map safe_rule e.pattern safe_bins m))
      | inr (inr n) ↦ absurd (h n)
    ]

    back : Elem e (kubectl_rule ∷ map safe_rule safe_bins) → builtin_label e ≢ []
    back (inl p) n = cc (kubectl_labelled, p, n)
    back (inr m) n =
        let (b, i, p) = Elem-map_inv safe_rule e safe_bins m in
        append-ne-nil b 0x20 _ (sym (safe_labelled b i) ∙ ap builtin_label (sym p) ∙ n)
