-- ===== src/Prelude/Searching.antt =====
-- strings.Index followed by slicing: a text cut at the first occurrence of a pattern.
use Prim.Native.Nat.{ℕ}
use mathlib.Core.Path.{◌≡◌, refl, ap, ◌∙◌}
use mathlib.Core.Logic.{inl, inr}
use mathlib.Core.Bool.{true, false, ◌&&◌, ◌||◌}
use mathlib.Core.Option.{Option, none, some}
use mathlib.Core.List.{List, [], ◌∷◌, ◌++◌}
use native.Mathlib.Omega.{arith}
use cubepilot.Prelude.Tests.{if◌then◌else◌, ◌==◌, ==_iff, Bool-cases}
use cubepilot.Prelude.Lists.{length, drop, Elem}
use cubepilot.Prelude.Texts.{Text, has_prefix, text_contains, is_empty}

-- A cut behind the front, with the byte at the front.
unfoldable pub cut_next : ℕ → Option (Text × Text) → Option (Text × Text)
cut_next c none = none
cut_next c (some (a, b)) = some (c ∷ a, b)

-- What stands before and behind the first occurrence of `p`.
unfoldable pub cut : Text → Text → Option (Text × Text)
unfolding has_prefix cut_next
cut [] p = if has_prefix [] p then some ([], []) else none
cut (c ∷ s) p =
    let rest = cut s p in
    if has_prefix (c ∷ s) p then some ([], drop (length p) (c ∷ s)) else cut_next c rest

-- A pattern within one line.
pub record IsInline (p : Text) : Type 0 where
  pub filled : is_empty p ≡ false
  pub no_newline : ¬ Elem b'\n' p

no_newline : (p : Text) → text_contains p (b'\n' ∷ []) ≡ false → ¬ Elem b'\n' p
unfolding text_contains has_prefix
no_newline [] h e = absurd e
no_newline (c ∷ p) h (inl e) = ground (arith, h, e, ==_iff c b'\n')
no_newline (c ∷ p) h (inr e) = no_newline p (ground (arith, h)) e

-- A pattern is tested for its line's end by a run.
pub IsInline-by_run :
    (p : Text) → is_empty p ≡ false → text_contains p (b'\n' ∷ []) ≡ false → IsInline p
IsInline-by_run p f n = record { filled = f; no_newline = no_newline p n }

pub has_prefix-append : (p s : Text) → has_prefix (p ++ s) p ≡ true
unfolding has_prefix
has_prefix-append [] s = refl
has_prefix-append (c ∷ p) s = ground (arith, has_prefix-append p s)

pub drop-append : {A : Type 0} (xs ys : List A) → drop (length xs) (xs ++ ys) ≡ ys
drop-append [] ys = refl
drop-append (x ∷ xs) ys = drop-append xs ys

-- What begins before a line's end, and is of one line, ends before it too.
pub has_prefix-line :
    (a s p : Text) → ¬ Elem b'\n' p → has_prefix (a ++ b'\n' ∷ s) p ≡ has_prefix a p
unfolding has_prefix
has_prefix-line a s [] n = refl
has_prefix-line [] s (c ∷ p) n = elim (Bool-cases (b'\n' == c)) [
  | inl e ↦ absurd (n (inl ((==_iff b'\n' c).0 e)))
  | inr e ↦ rw e refl
]
has_prefix-line (d ∷ a) s (c ∷ p) n =
    ap (λ z. (d == c) && z) (has_prefix-line a s p (λ h. n (inr h)))

-- A pattern of one line occurs in two lines exactly if it occurs in one of them.
pub text_contains-line :
    (a s p : Text)
    → IsInline p
    → text_contains (a ++ b'\n' ∷ s) p ≡ (text_contains a p || text_contains s p)
unfolding text_contains
text_contains-line [] s p i = ap (λ z. z || text_contains s p) (has_prefix-line [] s p i.no_newline)
text_contains-line (c ∷ a) s p i =
    ground (arith, has_prefix-line (c ∷ a) s p i.no_newline, text_contains-line a s p i)

pub has_prefix_weaken : (a x p : Text) → has_prefix a p ≡ true → has_prefix (a ++ x) p ≡ true
unfolding has_prefix
has_prefix_weaken a x [] h = refl
has_prefix_weaken [] x (c ∷ p) h = absurd (grind (arith, h))
has_prefix_weaken (d ∷ a) x (c ∷ p) h = ground (arith, has_prefix_weaken a x p)

pub has_prefix_split : (s p : Text) → has_prefix s p ≡ true → s ≡ p ++ drop (length p) s
unfolding has_prefix
has_prefix_split s [] h = refl
has_prefix_split [] (c ∷ p) h = absurd (grind (arith, h))
has_prefix_split (d ∷ s) (c ∷ p) h = ground (arith, ==_iff d c, has_prefix_split s p)

-- A cut gives back the text, and no occurrence stands before it.
abbrev IsCut : Text → Text → Text → Text → Type 0
IsCut s p a b = (s ≡ a ++ (p ++ b)) × (text_contains a p ≡ false)

IsCut-front :
    (s p a b : Text)
    → is_empty p ≡ false
    → has_prefix s p ≡ true
    → ◌≡◌ {A = Option (Text × Text)} (some ([], drop (length p) s)) (some (a, b))
    → IsCut s p a b
unfolding text_contains has_prefix
IsCut-front s [] a b f t e = absurd (grind (arith, f))
IsCut-front s (x ∷ p) [] b f t e = (has_prefix_split s (x ∷ p) t ∙ ap (λ z. x ∷ p ++ z) (cc), refl)
IsCut-front s (x ∷ p) (c ∷ a) b f t e = absurd (grind (arith, e))

IsCut-behind :
    (c : ℕ) (s p a b : Text) (r : Option (Text × Text))
    → ((a' b' : Text) → r ≡ some (a', b') → IsCut s p a' b')
    → has_prefix (c ∷ s) p ≡ false
    → cut_next c r ≡ some (a, b)
    → IsCut (c ∷ s) p a b
unfolding cut_next text_contains
IsCut-behind c s p a b none h f e = absurd (grind (arith, e))
IsCut-behind c s p [] b (some (a', b')) h f e = absurd (grind (arith, e))
IsCut-behind c s p (d ∷ a) b (some (a', b')) h f e =
    let (q, n) = h a' b' refl in
    let whole : (c ∷ s) ≡ (d ∷ a) ++ (p ++ b) = ground (arith, q, e) in
    (
      whole,
      ground (arith, n, e, has_prefix_weaken (d ∷ a) (p ++ b) p, ap (λ z. has_prefix z p) whole),
    )

pub cut-found : (s p a b : Text) → is_empty p ≡ false → cut s p ≡ some (a, b) → IsCut s p a b
unfolding cut
cut-found [] p a b f h = elim (Bool-cases (has_prefix [] p)) [
  | inl t ↦ IsCut-front [] p a b f t (ground (arith, h, t))
  | inr t ↦ absurd (ground (arith, h, t))
]
cut-found (c ∷ s) p a b f h = elim (Bool-cases (has_prefix (c ∷ s) p)) [
  | inl t ↦ IsCut-front (c ∷ s) p a b f t (rw (t, cut) at h)
  | inr t ↦
      IsCut-behind c s p a b (cut s p) (λ a' b' e. cut-found s p a' b' f e) t (rw (t, cut) at h)
]

pub cut_here : (p s : Text) → is_empty p ≡ false → cut (p ++ s) p ≡ some ([], s)
unfolding cut
cut_here [] s f = absurd (grind (arith, f))
cut_here (c ∷ p) s f =
    rw (has_prefix-append (c ∷ p) s) (ap (λ z. some ([], z)) (drop-append (c ∷ p) s))

cut_next-nothing : (c : ℕ) (r : Option (Text × Text)) → cut_next c r ≡ none → r ≡ none
unfolding cut_next
cut_next-nothing c none h = refl
cut_next-nothing c (some (a, b)) h = absurd (grind (arith, h))

has_prefix_filled : (p : Text) → is_empty p ≡ false → has_prefix [] p ≡ false
unfolding has_prefix
has_prefix_filled [] f = absurd (grind (arith, f))
has_prefix_filled (c ∷ p) f = refl

-- Behind a line without an occurrence, the first occurrence is that of the rest.
pub cut-line :
    (a s p x y : Text)
    → IsInline p
    → text_contains a p ≡ false
    → cut s p ≡ some (x, y)
    → cut (a ++ b'\n' ∷ s) p ≡ some (a ++ b'\n' ∷ x, y)
unfolding cut text_contains
cut-line [] s p x y i n e =
    rw (has_prefix-line [] s p i.no_newline, has_prefix_filled p i.filled, e) refl
cut-line (c ∷ a) s p x y i n e =
    let front : has_prefix (c ∷ a) p ≡ false = ground (arith, n) in
    let behind : text_contains a p ≡ false = ground (arith, n) in
    rw (has_prefix-line (c ∷ a) s p i.no_newline, front, cut-line a s p x y i behind e) refl

-- A text without an occurrence is not cut.
pub cut-nothing : (s p : Text) → cut s p ≡ none → text_contains s p ≡ false
unfolding cut text_contains
cut-nothing [] p h = ground (arith, h)
cut-nothing (c ∷ s) p h = elim (Bool-cases (has_prefix (c ∷ s) p)) [
  | inl t ↦ absurd (grind (arith, rw (t, cut) at h))
  | inr t ↦ rw t (cut-nothing s p (cut_next-nothing c (cut s p) (rw (t, cut) at h)))
]
