-- ===== src/Allowlist/Uniting.antt =====
-- Merge, as far as the rules are added one after another.
use cubepilot.Prelude.{
  ◌≡◌, refl, sym, ap, ◌∙◌, ◌⊎◌, inl, inr, true, false, List, [], ◌∷◌, ◌++◌, map, map-append,
  append-nil, append_assoc, Text, is_empty, contains, contains→Elem, Elem→contains, Elem, Distinct,
  Distinct-append, Elem-append_left, Elem-append_right, Elem-append_cases, Bool-cases,
}
use cubepilot.Allowlist.{AllowlistRule, rule_key, Merging, add, add_all}

-- The keys seen are those of the rules kept, and none is kept twice or without a command.
pub record IsUnion (m : Merging) : Type 0 where
  pub seen_out : m.seen ≡ map rule_key m.out
  pub distinct : Distinct m.seen
  pub named : (e : AllowlistRule) → Elem e m.out → is_empty e.pattern ≡ false

abbrev pub start : Merging
start = record { seen = []; out = [] }

pub IsUnion-start : IsUnion start
IsUnion-start = record { seen_out = refl; distinct = tt; named = λ e h. absurd h }

unfoldable pub snoc : Merging → AllowlistRule → Merging
snoc m e = record { seen = m.seen ++ rule_key e ∷ []; out = m.out ++ e ∷ [] }

-- The three ways that `add` can go.
pub add_cases :
    (m : Merging) (e : AllowlistRule)
    → ((add m e ≡ m) × (is_empty e.pattern ≡ true))
      ⊎ ((add m e ≡ m) × Elem (rule_key e) m.seen)
      ⊎ ((add m e ≡ snoc m e) × (is_empty e.pattern ≡ false) × ¬ Elem (rule_key e) m.seen)
unfolding add snoc
add_cases m e = elim (Bool-cases (is_empty e.pattern)) [
  | inl t ↦ inl (rw t, t)
  | inr f ↦ elim (Bool-cases (contains m.seen (rule_key e))) [
    | inl c ↦ inr (inl (rw (f, c), contains→Elem m.seen (rule_key e) c))
    | inr c ↦ inr (inr (rw (f, c), f, λ h. cc (Elem→contains m.seen (rule_key e) h)))
  ]
]

IsUnion-snoc :
    (m : Merging) (e : AllowlistRule)
    → IsUnion m
    → is_empty e.pattern ≡ false
    → ¬ Elem (rule_key e) m.seen
    → IsUnion (snoc m e)
unfolding snoc
IsUnion-snoc m e u n fresh = record {
  seen_out = ap (λ ks. ks ++ rule_key e ∷ []) u.seen_out ∙ sym (map-append rule_key m.out (e ∷ []));
  distinct = Distinct-append m.seen (rule_key e) u.distinct fresh;
  named = λ x h. elim (Elem-append_cases x m.out (e ∷ []) h) [
    | inl l ↦ u.named x l
    | inr (inl p) ↦ ap (λ (r : AllowlistRule). is_empty r.pattern) p ∙ n
    | inr (inr w) ↦ absurd w
  ];
}

pub IsUnion-add : (m : Merging) (e : AllowlistRule) → IsUnion m → IsUnion (add m e)
IsUnion-add m e u = elim (add_cases m e) [
  | inl h ↦ rw h.0 u
  | inr (inl h) ↦ rw h.0 u
  | inr (inr h) ↦ rw h.0 (IsUnion-snoc m e u h.1 h.2)
]

pub IsUnion-add_all : (m : Merging) (es : List AllowlistRule) → IsUnion m → IsUnion (add_all m es)
unfolding add_all
IsUnion-add_all m [] u = u
IsUnion-add_all m (e ∷ es) u = IsUnion-add_all (add m e) es (IsUnion-add m e u)

-- What is kept stays in front.
pub add-prefix :
    (m : Merging) (e : AllowlistRule) → (r : List AllowlistRule) × ((add m e).out ≡ m.out ++ r)
unfolding snoc
add-prefix m e = elim (add_cases m e) [
  | inl h ↦ ([], rw h.0 (sym (append-nil m.out)))
  | inr (inl h) ↦ ([], rw h.0 (sym (append-nil m.out)))
  | inr (inr h) ↦ (e ∷ [], ap (λ (x : Merging). x.out) h.0)
]

pub add_all-prefix :
    (m : Merging) (es : List AllowlistRule)
    → (r : List AllowlistRule) × ((add_all m es).out ≡ m.out ++ r)
unfolding add_all
add_all-prefix m [] = ([], sym (append-nil m.out))
add_all-prefix m (e ∷ es) =
    let (r, p) = add-prefix m e in
    let (r', q) = add_all-prefix (add m e) es in
    (r ++ r', q ∙ ap (λ z. z ++ r') p ∙ append_assoc m.out r r')

-- Every rule kept is one of those handed in.
pub add_all_sound :
    (x : AllowlistRule) (m : Merging) (es : List AllowlistRule)
    → Elem x (add_all m es).out
    → Elem x m.out ⊎ Elem x es
unfolding add_all snoc
add_all_sound x m [] h = inl h
add_all_sound x m (e ∷ es) h = elim (add_all_sound x (add m e) es h) [
  | inr r ↦ inr (inr r)
  | inl l ↦ elim (add_cases m e) [
    | inl c ↦ inl (rw c.0 at l)
    | inr (inl c) ↦ inl (rw c.0 at l)
    | inr (inr c) ↦ elim (Elem-append_cases x m.out (e ∷ []) (rw c.0 at l)) [
      | inl k ↦ inl k
      | inr (inl p) ↦ inr (inl p)
      | inr (inr w) ↦ absurd w
    ]
  ]
]

seen-add : (k : Text) (m : Merging) (e : AllowlistRule) → Elem k m.seen → Elem k (add m e).seen
unfolding snoc
seen-add k m e h = elim (add_cases m e) [
  | inl c ↦ rw c.0 h
  | inr (inl c) ↦ rw c.0 h
  | inr (inr c) ↦ rw c.0 (Elem-append_left k m.seen _ h)
]

pub seen-add_all :
    (k : Text) (m : Merging) (es : List AllowlistRule) → Elem k m.seen → Elem k (add_all m es).seen
unfolding add_all
seen-add_all k m [] h = h
seen-add_all k m (e ∷ es) h = seen-add_all k (add m e) es (seen-add k m e h)

seen-add_self :
    (m : Merging) (e : AllowlistRule)
    → is_empty e.pattern ≡ false
    → Elem (rule_key e) (add m e).seen
unfolding snoc
seen-add_self m e n = elim (add_cases m e) [
  | inl c ↦ absurd (cc (c.1, n))
  | inr (inl c) ↦ rw c.0 c.1
  | inr (inr c) ↦ rw c.0 (Elem-append_right (rule_key e) m.seen _ (inl refl))
]

-- The key of every named rule handed in is seen at the end.
pub add_all_complete :
    (x : AllowlistRule) (m : Merging) (es : List AllowlistRule)
    → Elem x es
    → is_empty x.pattern ≡ false
    → Elem (rule_key x) (add_all m es).seen
unfolding add_all
add_all_complete x m [] h n = absurd h
add_all_complete x m (e ∷ es) (inl p) n = rw p (
    seen-add_all (rule_key e) (add m e) es
      (seen-add_self m e (ap (λ (r : AllowlistRule). is_empty r.pattern) (sym p) ∙ n)))
add_all_complete x m (e ∷ es) (inr h) n = add_all_complete x (add m e) es h n
