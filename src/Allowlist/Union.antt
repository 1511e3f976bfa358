-- ===== src/Allowlist/Union.antt =====
-- Merge: the union of two rule lists by the identity of a rule.
use cubepilot.Prelude.{
  ◌≡◌, refl, sym, ◌∙◌, ◌⊎◌, inl, inr, false, List, [], ◌∷◌, ◌++◌, map, subst, append-nil,
  append_assoc, Text, is_empty, Elem, Distinct, Elem-append_right,
}
use cubepilot.Allowlist.{AllowlistRule, rule_key, Merging, add, add_all, merge}
use cubepilot.Allowlist.Uniting.{
  IsUnion, start, IsUnion-start, snoc, add_cases, IsUnion-add_all, add_all-prefix, add_all_sound,
  seen-add_all, add_all_complete,
}

merged : List AllowlistRule → List AllowlistRule → Merging
merged a b = add_all (add_all start a) b

merged-IsUnion : (a b : List AllowlistRule) → IsUnion (merged a b)
unfolding merged
merged-IsUnion a b = IsUnion-add_all _ b (IsUnion-add_all start a IsUnion-start)

merge_lem : (a b : List AllowlistRule) → merge a b ≡ (merged a b).out
unfolding merge merged
merge_lem a b = refl

-- A union holds no two rules of one identity, and no rule without a command.
pub merge-Distinct :
    (a b : List AllowlistRule)
    → Distinct (map rule_key (merge a b))
      × ((e : AllowlistRule) → Elem e (merge a b) → is_empty e.pattern ≡ false)
merge-Distinct a b =
    let u = merged-IsUnion a b in rw merge_lem (subst Distinct u.seen_out u.distinct, u.named)

pub merge_sound :
    (x : AllowlistRule) (a b : List AllowlistRule) → Elem x (merge a b) → Elem x a ⊎ Elem x b
unfolding merged
merge_sound x a b h = elim (add_all_sound x (add_all start a) b (rw merge_lem at h)) [
  | inr r ↦ inr r
  | inl l ↦ elim (add_all_sound x start a l) [ inl w ↦ absurd w | inr r ↦ inl r ]
]

seen-merged :
    (x : AllowlistRule) (a b : List AllowlistRule)
    → Elem x a ⊎ Elem x b
    → is_empty x.pattern ≡ false
    → Elem (rule_key x) (merged a b).seen
unfolding merged
seen-merged x a b (inl h) n = seen-add_all (rule_key x) _ b (add_all_complete x start a h n)
seen-merged x a b (inr h) n = add_all_complete x _ b h n

pub merge_complete :
    (x : AllowlistRule) (a b : List AllowlistRule)
    → Elem x a ⊎ Elem x b
    → is_empty x.pattern ≡ false
    → Elem (rule_key x) (map rule_key (merge a b))
merge_complete x a b h n =
    rw merge_lem (subst (Elem (rule_key x)) (merged-IsUnion a b).seen_out (seen-merged x a b h n))

add_all-known :
    (m : Merging) (es : List AllowlistRule)
    → ((x : AllowlistRule) → Elem x es → is_empty x.pattern ≡ false → Elem (rule_key x) m.seen)
    → add_all m es ≡ m
unfolding add_all
add_all-known m [] h = refl
add_all-known m (e ∷ es) h = rw same (add_all-known m es (λ x i. h x (inr i)))
  where
    same : add m e ≡ m
    same = elim (add_cases m e) [
      | inl c ↦ c.0
      | inr (inl c) ↦ c.0
      | inr (inr c) ↦ absurd (c.2 (h e (inl refl) c.1))
    ]

Distinct-middle :
    (ks : List Text) (k : Text) (js : List Text) → Distinct (ks ++ k ∷ js) → ¬ Elem k ks
Distinct-middle [] k js d h = h
Distinct-middle (x ∷ ks) k js (n, d) (inl e) = n (Elem-append_right x ks (k ∷ js) (inl (sym e)))
Distinct-middle (x ∷ ks) k js (n, d) (inr h) = Distinct-middle ks k js d h

-- Rules that are already a union are added as they stand.
add_all-fresh :
    (m : Merging) (es : List AllowlistRule)
    → Distinct (m.seen ++ map rule_key es)
    → ((x : AllowlistRule) → Elem x es → is_empty x.pattern ≡ false)
    → add_all m es ≡ record { seen = m.seen ++ map rule_key es; out = m.out ++ es }
unfolding add_all snoc
add_all-fresh m [] d n =
    λ i. record { seen = sym (append-nil m.seen) i; out = sym (append-nil m.out) i }
add_all-fresh m (e ∷ es) d n = rw step (
    add_all-fresh (snoc m e) es (rw (append_assoc m.seen (rule_key e ∷ []) (map rule_key es)) d)
      (λ x h. n x (inr h))
    ∙ λ i. record {
      seen = append_assoc m.seen (rule_key e ∷ []) (map rule_key es) i;
      out = append_assoc m.out (e ∷ []) es i;
    })
  where
    step : add m e ≡ snoc m e
    step = elim (add_cases m e) [
      | inl c ↦ absurd (cc (n e (inl refl), c.1))
      | inr (inl c) ↦ absurd (Distinct-middle m.seen (rule_key e) (map rule_key es) d c.1)
      | inr (inr c) ↦ c.0
    ]

-- Merging a union with a list whose rules it has already changes nothing.
merge-known :
    (a b : List AllowlistRule)
    → Distinct (map rule_key a)
    → ((x : AllowlistRule) → Elem x a → is_empty x.pattern ≡ false)
    → ((x : AllowlistRule)
        → Elem x b
        → is_empty x.pattern ≡ false
        → Elem (rule_key x) (map rule_key a))
    → merge a b ≡ a
unfolding merged
merge-known a b d n k = rw (
  merge_lem,
  add_all-fresh start a d n,
  add_all-known (record { seen = map rule_key a; out = a }) b k,
)

-- Merging the same desired rules again changes nothing.
merge_idem : (a b : List AllowlistRule) → merge (merge a b) b ≡ merge a b
merge_idem a b =
    let (d, n) = merge-Distinct a b in
    merge-known (merge a b) b d n (λ x h ne. merge_complete x a b (inr h) ne)

-- A list that is a union already keeps its place at the front of every merge.
pub merge-prefix :
    (a b : List AllowlistRule)
    → Distinct (map rule_key a)
    → ((x : AllowlistRule) → Elem x a → is_empty x.pattern ≡ false)
    → (r : List AllowlistRule) × (merge a b ≡ a ++ r)
unfolding merged
merge-prefix a b d n =
    let (r, p) = add_all-prefix (record { seen = map rule_key a; out = a }) b in
    (r, rw (merge_lem, add_all-fresh start a d n) p)
