-- ===== src/Approvals/Handling/Deriving.antt =====
-- deriveAllowAlwaysRule of internal/server/handlers_agent_approval.go against Validate of
-- internal/allowlist/allowlist.go.
use cubepilot.Prelude.{
  ℕ, ◌≡◌, refl, ap, sym, ◌∙◌, subst, Bool, true, false, not, ◌&&◌, ◌||◌, List, [], ◌∷◌, ◌++◌, none,
  some, Text, utf8, is_empty, text_eq, text_contains, has_prefix, Elem, All, arith, inl, inr,
  if◌then◌else◌, Bool-cases, ◌==◌, ==_iff, drop,
}
use cubepilot.Allowlist.{
  AllowlistRule, pattern_has_separator, has_flag_group, js_incompatible, validate,
}
use cubepilot.Prelude.{Elem-append_right}
use cubepilot.Prelude.Blanks.{trim_space_clear}
use mathlib.Core.List.{reverse, reverse-append, reverse-reverse}
use cubepilot.Approvals.Handling.Words.{IsWord, fields-IsWord}
use cubepilot.Schedule.{fields}
use cubepilot.Approvals.Handling.{is_meta, quote_meta, join, rule_of, derive_allow_always_rule}

-- A byte that opens a construct, where no backslash stands before it.
abbrev is_opener : ℕ → Bool
is_opener m = m == b'?' || m == b'[' || m == b'{'

-- Every such byte behind the first has a backslash before it.
unfoldable is_guarded : Text → Bool
is_guarded [] = true
is_guarded (c ∷ []) = true
is_guarded (c ∷ d ∷ s) = (not (is_opener d) || c == b'\\') && is_guarded (d ∷ s)

is_guarded-append : (c : ℕ) (s : Text) → is_guarded (c ∷ (quote_meta s ++ b'$' ∷ [])) ≡ true
unfolding is_guarded quote_meta is_meta
is_guarded-append c [] = ground arith
is_guarded-append c (x ∷ s) = elim (Bool-cases (is_meta x)) [
  | inl t ↦ rw t (ground (arith, is_guarded-append x s, t))
  | inr f ↦ rw f (ground (arith, is_guarded-append x s, f))
]

-- In such a text, a construct that an opener makes does not occur.
text_contains_guarded :
    (s : Text) (x m : ℕ) (p : Text)
    → is_guarded s ≡ true
    → is_opener m ≡ true
    → (x == b'\\') ≡ false
    → text_contains s (x ∷ m ∷ p) ≡ false
unfolding text_contains has_prefix is_guarded
text_contains_guarded [] x m p g o n = refl
text_contains_guarded (c ∷ []) x m p g o n = ground arith
text_contains_guarded (c ∷ d ∷ s) x m p g o n =
    ground (arith, text_contains_guarded (d ∷ s) x m p, g, o, n, ==_iff c x, ==_iff d m)

has_flag_group_guarded : (s : Text) → is_guarded s ≡ true → has_flag_group s ≡ false
unfolding has_flag_group is_guarded text_eq
has_flag_group_guarded [] g = refl
has_flag_group_guarded (c ∷ []) g = refl
has_flag_group_guarded (c ∷ d ∷ []) g = refl
has_flag_group_guarded (c ∷ d ∷ e ∷ s) g =
    ground (arith, has_flag_group_guarded (d ∷ e ∷ s), g, ==_iff c b'(', ==_iff d b'?')

text_contains_tail :
    (s : Text) (y : ℕ) (q : Text)
    → text_contains s q ≡ false
    → is_empty q ≡ false
    → text_contains s (y ∷ q) ≡ false
unfolding text_contains has_prefix
text_contains_tail [] y q h e = refl
text_contains_tail (c ∷ []) y [] h e = absurd (grind (arith, e))
text_contains_tail (c ∷ []) y (x ∷ q) h e = ground arith
text_contains_tail (c ∷ d ∷ s) y q h e = ground (arith, text_contains_tail (d ∷ s) y q, h, e)

js_incompatible_guarded : (s : Text) → is_guarded s ≡ true → js_incompatible s ≡ none
unfolding js_incompatible
js_incompatible_guarded s g =
    rw
      (
        text_contains_guarded s b'(' b'?' (utf8 "P<") g refl refl,
        has_flag_group_guarded s g,
        text_contains_guarded s b'[' b'[' (utf8 ":") g refl refl,
        text_contains_tail s b'\\' (utf8 "p{") (text_contains_guarded s b'p' b'{' [] g refl refl)
            refl,
        text_contains_tail s b'\\' (utf8 "P{") (text_contains_guarded s b'P' b'{' [] g refl refl)
            refl,
      )
      refl

-- The rule of some words has the first for a pattern, and quotes the others.
abbrev quoted : Text → List Text → AllowlistRule
quoted f ws = record { pattern = f; arg_pattern = b'^' ∷ (quote_meta (join ws) ++ b'$' ∷ []) }

rule_of_form : (f : Text) (ws : List Text) → rule_of (f ∷ ws) ≡ some (quoted f ws)
unfolding rule_of quote_meta join
rule_of_form f [] = refl
rule_of_form f (g ∷ gs) = refl

rule_of-some :
    (ws : List Text) (r : AllowlistRule)
    → rule_of ws ≡ some r
    → (f : Text) × (gs : List Text) × (ws ≡ f ∷ gs) × (r ≡ quoted f gs)
unfolding rule_of
rule_of-some [] r e = absurd (grind (arith, e))
rule_of-some (f ∷ gs) r e = (
  f,
  gs,
  refl,
  ap (λ o. elim o as (λ _. AllowlistRule) [ none ↦ r | some x ↦ x ]) (sym e ∙ rule_of_form f gs),
)

quoted-validate :
    (compiles : Text → Bool) (f : Text) (gs : List Text)
    → ((args : Text) → compiles (b'^' ∷ (quote_meta args ++ b'$' ∷ [])) ≡ true)
    → IsWord f
    → validate compiles (quoted f gs)
      ≡ (if text_contains f (utf8 "|") then some pattern_has_separator else none)
unfolding validate
quoted-validate compiles f gs c i =
    rw (trim_space_clear f i.filled i.clear)
      (rw (js_incompatible_guarded _ (is_guarded-append b'^' (join gs)), c (join gs)) refl)

-- Where the regular expressions that QuoteMeta gives compile, the rule that allow-always derives from a
-- command is one that Validate accepts, unless the command's first word has a `|` in it, and then it is
-- refused for that: what is quoted is never taken for a construct that JavaScript does not have.
pub derive_allow_always_rule-validate :
    (compiles : Text → Bool) (command : Text) (r : AllowlistRule)
    → ((args : Text) → compiles (b'^' ∷ (quote_meta args ++ b'$' ∷ [])) ≡ true)
    → derive_allow_always_rule command ≡ some r
    → validate compiles r
      ≡ (if text_contains r.pattern (utf8 "|") then some pattern_has_separator else none)
unfolding derive_allow_always_rule
derive_allow_always_rule-validate compiles command r c e =
    let (f, gs, w, q) = rule_of-some (fields command) r e in
    let (i, _) = subst (All IsWord) w (fields-IsWord command) in
    subst
      (λ z.
        validate compiles z
        ≡ (if text_contains z.pattern (utf8 "|") then some pattern_has_separator else none))
      (sym q) (quoted-validate compiles f gs c i)

-- Reading back what is quoted; `escaped` tells of a backslash just read.
unquote : Bool → Text → Text
unquote escaped [] = []
unquote true (c ∷ s) = c ∷ unquote false s
unquote false (c ∷ s) =
    let on = unquote true s in let rest = unquote false s in if c == b'\\' then on else c ∷ rest

is_meta_backslash : (c : ℕ) → is_meta c ≡ false → (c == b'\\') ≡ false
unfolding is_meta
is_meta_backslash c h = elim (Bool-cases (c == b'\\')) [
  | inl t ↦ absurd (grind (arith, rw t at h))
  | inr f ↦ f
]

unquote-quote_meta : (s : Text) → unquote false (quote_meta s) ≡ s
unfolding unquote quote_meta
unquote-quote_meta [] = refl
unquote-quote_meta (c ∷ s) = elim (Bool-cases (is_meta c)) [
  | inl t ↦ rw t (ap (λ z. c ∷ z) (unquote-quote_meta s))
  | inr f ↦ rw (f, is_meta_backslash c f) (ap (λ z. c ∷ z) (unquote-quote_meta s))
]

append-cancel : (a b : Text) (x : ℕ) → a ++ x ∷ [] ≡ b ++ x ∷ [] → a ≡ b
append-cancel a b x e =
    sym (reverse-reverse a)
    ∙ ap reverse
        (ap (drop 1) (sym (reverse-append a (x ∷ [])) ∙ ap reverse e ∙ reverse-append b (x ∷ [])))
    ∙ reverse-reverse b

word_split :
    (w v a b : Text)
    → ¬ Elem b' ' w
    → ¬ Elem b' ' v
    → w ++ b' ' ∷ a ≡ v ++ b' ' ∷ b
    → (w ≡ v) × (a ≡ b)
word_split [] [] a b n m e = (refl, ap (drop 1) e)
word_split [] (y ∷ v) a b n m e = absurd (m (inl (grind (arith, e))))
word_split (x ∷ w) [] a b n m e = absurd (n (inl (grind (arith, e))))
word_split (x ∷ w) (y ∷ v) a b n m e =
    let (p, q) = word_split w v a b (λ h. n (inr h)) (λ h. m (inr h)) (ap (drop 1) e) in
    (grind (arith, e, p), q)

spaced : (v a : Text) → Elem b' ' (v ++ b' ' ∷ a)
spaced v a = Elem-append_right b' ' v (b' ' ∷ a) (inl refl)

join-injective : (u v : List Text) → All IsWord u → All IsWord v → join u ≡ join v → u ≡ v
unfolding join
join-injective [] [] a b e = refl
join-injective [] (w ∷ []) a (i, b) e = absurd (grind (arith, i.filled, e))
join-injective [] (w ∷ x ∷ v) a (i, b) e =
    absurd (subst (Elem b' ') (sym e) (spaced w (join (x ∷ v))))
join-injective (w ∷ []) [] (i, a) b e = absurd (grind (arith, i.filled, e))
join-injective (w ∷ x ∷ u) [] (i, a) b e = absurd (subst (Elem b' ') e (spaced w (join (x ∷ u))))
join-injective (w ∷ []) (z ∷ []) a b e = ap (λ y. y ∷ []) e
join-injective (w ∷ []) (z ∷ y ∷ v) (i, a) b e =
    absurd (i.no_space (subst (Elem b' ') (sym e) (spaced z (join (y ∷ v)))))
join-injective (w ∷ x ∷ u) (z ∷ []) a (i, b) e =
    absurd (i.no_space (subst (Elem b' ') e (spaced w (join (x ∷ u)))))
join-injective (w ∷ x ∷ u) (z ∷ y ∷ v) (i, a) (k, b) e =
    let (p, q) = word_split w z (join (x ∷ u)) (join (y ∷ v)) i.no_space k.no_space e in
    ap (λ y. y ∷ x ∷ u) p ∙ ap (λ y. z ∷ y) (join-injective (x ∷ u) (y ∷ v) a b q)

quoted-injective :
    (f g : Text) (u v : List Text)
    → All IsWord u
    → All IsWord v
    → quoted f u ≡ quoted g v
    → f ∷ u ≡ g ∷ v
quoted-injective f g u v a b e =
    let args =
      append-cancel (quote_meta (join u)) (quote_meta (join v)) b'$'
        (ap (λ z. drop 1 z.arg_pattern) e) in
    let same =
      sym (unquote-quote_meta (join u)) ∙ ap (unquote false) args ∙ unquote-quote_meta (join v) in
    ap (λ z. z.pattern ∷ u) e ∙ ap (λ z. g ∷ z) (join-injective u v a b same)
