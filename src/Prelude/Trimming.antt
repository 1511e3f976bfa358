-- ===== src/Prelude/Trimming.antt =====
-- strings.TrimSpace: the blanks it drops, and those it has dropped already.
use Prim.Native.Nat.{ℕ, suc, ◌+◌, ◌≤◌}
use mathlib.Core.Path.{◌≡◌, refl, ap, sym, ◌∙◌, subst}
use mathlib.Core.Bool.{false}
use mathlib.Core.List.{List, [], ◌∷◌, ◌++◌, append_assoc, reverse, reverse-append, reverse-reverse}
use native.Mathlib.Omega.{arith}
use cubepilot.Prelude.Lists.{length, length-append, All}
use cubepilot.Prelude.Texts.{
  Text, has_prefix, text_contains, is_empty, leading, trim_loop, trim_left, trim_right, trim_space,
  space_chars, map_reverse,
}
use cubepilot.Prelude.Searching.{has_prefix_weaken}
use cubepilot.Prelude.Stripping.{
  IsClosed, IsFilled, All-IsClosed, All-IsFilled_back, leading-line, trim_loop_done,
  trim_loop_total, length-reverse, trim_loop_end, IsTrimmed, trim_right_start, trim_left_done,
}

trim_left-newline : (s : Text) → trim_left (b'\n' ∷ s) ≡ trim_left s
unfolding trim_left trim_loop space_chars leading has_prefix
trim_left-newline s = refl

trim_right-newline : (s : Text) → trim_right (s ++ b'\n' ∷ []) ≡ trim_right s
unfolding trim_right trim_loop space_chars leading has_prefix
trim_right-newline s =
    rw (length-append s (b'\n' ∷ []), reverse-append s (b'\n' ∷ []), one_more (length s)) refl
  where
    one_more : (n : ℕ) → n + 1 ≡ suc n
    one_more n = omega arith

trim_left_line :
    (c : ℕ) (t r : Text)
    → leading space_chars (c ∷ t) ≡ 0
    → trim_left (c ∷ (t ++ b'\n' ∷ r)) ≡ c ∷ (t ++ b'\n' ∷ r)
trim_left_line c t r e = trim_left_done _ (leading-line space_chars c t r All-IsClosed e)

-- A line's end before a text is dropped, and those behind a trimmed text are all that is dropped.
pub trim_space-newline : (s : Text) → trim_space (b'\n' ∷ s) ≡ trim_space s
unfolding trim_space
trim_space-newline s = ap trim_right (trim_left-newline s)

pub trim_space_line :
    (c : ℕ) (t : Text) → IsTrimmed (c ∷ t) → trim_space (c ∷ (t ++ b'\n' ∷ [])) ≡ c ∷ t
unfolding trim_space
trim_space_line c t i = rw (trim_left_line c t [] i.left) (trim_right-newline (c ∷ t) ∙ i.right)

pub trim_space_lines :
    (c : ℕ) (t : Text) → IsTrimmed (c ∷ t) → trim_space (c ∷ (t ++ b'\n' ∷ b'\n' ∷ [])) ≡ c ∷ t
unfolding trim_space
trim_space_lines c t i = rw (trim_left_line c t (b'\n' ∷ []) i.left) (
    ap trim_right (sym (append_assoc (c ∷ t) (b'\n' ∷ []) (b'\n' ∷ [])))
    ∙ trim_right-newline (c ∷ (t ++ b'\n' ∷ []))
    ∙ trim_right-newline (c ∷ t)
    ∙ i.right)

text_contains_end : (l s p : Text) → text_contains (l ++ s) p ≡ false → text_contains s p ≡ false
unfolding text_contains
text_contains_end [] s p h = h
text_contains_end (c ∷ l) s p h = text_contains_end l s p (ground (arith, h))

text_contains_start :
    (s r p : Text)
    → is_empty p ≡ false
    → text_contains (s ++ r) p ≡ false
    → text_contains s p ≡ false
unfolding text_contains has_prefix
text_contains_start [] r [] f h = absurd (grind (arith, f))
text_contains_start [] r (x ∷ p) f h = refl
text_contains_start (c ∷ s) r p f h =
    ground (arith, has_prefix_weaken (c ∷ s) r p, text_contains_start s r p f)

-- What a text does not hold, its trimmed part does not hold.
pub text_contains-trim_space :
    (s p : Text)
    → is_empty p ≡ false
    → text_contains s p ≡ false
    → text_contains (trim_space s) p ≡ false
unfolding trim_space trim_left
text_contains-trim_space s p f h =
    let (l, e) = trim_loop_end (length s) space_chars s in
    let (r, d) = trim_right_start (trim_left s) in
    text_contains_start (trim_space s) r p f (
      subst (λ z. text_contains z p ≡ false) d
        (text_contains_end l (trim_left s) p (subst (λ z. text_contains z p ≡ false) e h)))

All-IsClosed_back : All IsClosed (map_reverse space_chars)
unfolding space_chars
All-IsClosed_back = omega arith

-- The end of a text that keeps its right end is clear of blanks.
trim_right_clear : (s : Text) → trim_right s ≡ s → leading (map_reverse space_chars) (reverse s) ≡ 0
unfolding trim_right
trim_right_clear s e =
    let W = map_reverse space_chars in
    let z = trim_loop (length s) W (reverse s) in
    let n =
      trim_loop_total (length s) W (reverse s) All-IsFilled_back
        (omega (arith, length-reverse s)) in
    subst (λ y. leading W y ≡ 0) (sym (reverse-reverse z) ∙ ap reverse e) n

leading_behind :
    (ws : List Text) (t r : Text)
    → All IsClosed ws
    → IsFilled t
    → leading ws t ≡ 0
    → leading ws (t ++ b'\n' ∷ r) ≡ 0
leading_behind ws [] r a f e = absurd (grind (arith, f))
leading_behind ws (c ∷ t) r a f e = leading-line ws c t r a e

IsFilled-length : (s : Text) → 1 ≤ length s → IsFilled s
IsFilled-length [] l = absurd (grind (arith, l))
IsFilled-length (c ∷ s) l = refl

pub reverse-IsFilled : (s : Text) → IsFilled s → IsFilled (reverse s)
reverse-IsFilled [] f = f
reverse-IsFilled (c ∷ s) f =
    IsFilled-length (reverse (c ∷ s)) (omega (arith, length-reverse (c ∷ s)))

-- Behind a line, the right end of a trimmed text is where it was.
pub trim_right_behind :
    (a s : Text) → IsFilled s → IsTrimmed s → trim_right (a ++ b'\n' ∷ s) ≡ a ++ b'\n' ∷ s
unfolding trim_right
trim_right_behind a s f i =
    let W = map_reverse space_chars in
    let x = a ++ b'\n' ∷ s in
    let turned : reverse x ≡ reverse s ++ b'\n' ∷ reverse a =
      reverse-append a (b'\n' ∷ s)
      ∙ ap (λ z. z ++ reverse a) (reverse-append (b'\n' ∷ []) s)
      ∙ append_assoc (reverse s) (b'\n' ∷ []) (reverse a) in
    let clear =
      leading_behind W (reverse s) (reverse a) All-IsClosed_back (reverse-IsFilled s f)
        (trim_right_clear s i.right) in
    ap reverse
      (trim_loop_done (length x) W (reverse x) (subst (λ z. leading W z ≡ 0) (sym turned) clear))
    ∙ reverse-reverse x

-- Lines of which the first begins, and the last ends, without blanks.
pub lines_IsTrimmed :
    (c : ℕ) (a b s : Text)
    → IsTrimmed (c ∷ a)
    → IsFilled s
    → IsTrimmed s
    → IsTrimmed (c ∷ (a ++ b'\n' ∷ (b ++ b'\n' ∷ s)))
lines_IsTrimmed c a b s i f j = record {
  left = leading-line space_chars c a (b ++ b'\n' ∷ s) All-IsClosed i.left;
  right =
      subst (λ z. trim_right z ≡ z) (append_assoc (c ∷ a) (b'\n' ∷ b) (b'\n' ∷ s))
        (trim_right_behind ((c ∷ a) ++ b'\n' ∷ b) s f j);
}
