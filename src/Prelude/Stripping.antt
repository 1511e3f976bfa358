-- ===== src/Prelude/Stripping.antt =====
-- The loops of strings.TrimSpace: what is left, and that nothing more is to be dropped.
use Prim.Native.Nat.{ℕ, zero, suc, ◌≤◌}
use mathlib.Core.Path.{◌≡◌, refl, ap, sym, ◌∙◌, subst}
use mathlib.Core.Logic.{inl, inr}
use mathlib.Core.Bool.{false}
use mathlib.Core.List.{List, [], ◌∷◌, ◌++◌, append_assoc, reverse, reverse-append, reverse-reverse}
use native.Mathlib.Omega.{arith}
use cubepilot.Prelude.Tests.{◌==◌, ==_iff, Bool-cases}
use cubepilot.Prelude.Lists.{length, length-append, length-drop, drop, Elem, All}
use cubepilot.Prelude.Texts.{
  Text, has_prefix, is_empty, leading, trim_loop, trim_left, trim_right, trim_space, space_chars,
  map_reverse,
}
use cubepilot.Prelude.Searching.{has_prefix_weaken, has_prefix-line}

-- An encoding that a line's end does not complete.
abbrev pub IsClosed : Text → Type 0
IsClosed [] = ⊥
IsClosed (c ∷ w) = ¬ Elem b'\n' w

abbrev pub IsFilled : Text → Type 0
IsFilled w = is_empty w ≡ false

pub All-IsClosed : All IsClosed space_chars
unfolding space_chars
All-IsClosed = omega arith

pub All-IsFilled : All IsFilled space_chars
unfolding space_chars
All-IsFilled = grind arith

pub All-IsFilled_back : All IsFilled (map_reverse space_chars)
unfolding space_chars
All-IsFilled_back = grind arith

-- The encodings that begin a text begin it also where more follows.
pub leading_weaken :
    (ws : List Text) (t r : Text) → All IsFilled ws → leading ws (t ++ r) ≡ 0 → leading ws t ≡ 0
unfolding leading
leading_weaken [] t r a e = refl
leading_weaken ([] ∷ ws) t r (f, a) e = absurd (grind (arith, f))
leading_weaken ((c ∷ w) ∷ ws) t r (f, a) e =
    ground (arith, has_prefix_weaken t r (c ∷ w), leading_weaken ws t r a)

pub leading-line :
    (ws : List Text) (c : ℕ) (t r : Text)
    → All IsClosed ws
    → leading ws (c ∷ t) ≡ 0
    → leading ws (c ∷ (t ++ b'\n' ∷ r)) ≡ 0
unfolding leading has_prefix
leading-line [] c t r a e = refl
leading-line ([] ∷ ws) c t r (f, a) e = absurd f
leading-line ((d ∷ w) ∷ ws) c t r (f, a) e =
    ground (arith, has_prefix-line t r w f, leading-line ws c t r a)

leading_nothing : (ws : List Text) → All IsFilled ws → leading ws [] ≡ 0
unfolding leading has_prefix
leading_nothing [] a = refl
leading_nothing ([] ∷ ws) (f, a) = absurd (grind (arith, f))
leading_nothing ((c ∷ w) ∷ ws) (f, a) = leading_nothing ws a

pub trim_loop_done : (f : ℕ) (ws : List Text) (s : Text) → leading ws s ≡ 0 → trim_loop f ws s ≡ s
unfolding trim_loop
trim_loop_done zero ws s e = refl
trim_loop_done (suc f) ws s e = rw e refl

-- With the length for fuel, nothing is left to drop.
pub trim_loop_total :
    (f : ℕ) (ws : List Text) (s : Text)
    → All IsFilled ws
    → length s ≤ f
    → leading ws (trim_loop f ws s) ≡ 0
unfolding trim_loop
trim_loop_total zero ws [] a l = leading_nothing ws a
trim_loop_total zero ws (c ∷ s) a l = absurd (grind (arith, l))
trim_loop_total (suc f) ws s a l = elim (Bool-cases (leading ws s == 0)) [
  | inl t ↦ rw t ((==_iff (leading ws s) 0).0 t)
  | inr t ↦ rw t (
      trim_loop_total f ws (drop (leading ws s) s) a
        (ground (arith, t, l, length-drop (leading ws s) s)))
]

pub length-reverse : (s : Text) → length (reverse s) ≡ length s
length-reverse [] = refl
length-reverse (c ∷ s) =
    ap length (reverse-append (c ∷ []) s)
    ∙ length-append (reverse s) (c ∷ [])
    ∙ omega (arith, length-reverse s)

drop_end : (n : ℕ) (s : Text) → (k : Text) × (s ≡ k ++ drop n s)
drop_end zero s = ([], refl)
drop_end (suc n) [] = ([], refl)
drop_end (suc n) (c ∷ s) = let (k, e) = drop_end n s in (c ∷ k, ap (λ z. c ∷ z) e)

-- What the loop leaves is the end of the text.
pub trim_loop_end : (f : ℕ) (ws : List Text) (s : Text) → (l : Text) × (s ≡ l ++ trim_loop f ws s)
unfolding trim_loop
trim_loop_end zero ws s = ([], refl)
trim_loop_end (suc f) ws s = elim (Bool-cases (leading ws s == 0)) [
  | inl t ↦ ([], rw t refl)
  | inr t ↦
      let (l, e) = trim_loop_end f ws (drop (leading ws s) s) in
      let (k, d) = drop_end (leading ws s) s in
      (k ++ l, rw t (d ∙ ap (λ z. k ++ z) e ∙ sym (append_assoc k l _)))
]

-- A text without blanks at either end.
pub record IsTrimmed (t : Text) : Type 0 where
  pub left : leading space_chars t ≡ 0
  pub right : trim_right t ≡ t

trim_right_idem : (s : Text) → trim_right (trim_right s) ≡ trim_right s
unfolding trim_right
trim_right_idem s =
    let W = map_reverse space_chars in
    let z = trim_loop (length s) W (reverse s) in
    let e = trim_loop_total (length s) W (reverse s) All-IsFilled_back (fits s) in
    rw (reverse-reverse z) (ap reverse (trim_loop_done (length (reverse z)) W z e))
  where
    fits : (s : Text) → length (reverse s) ≤ length s
    fits s = omega (arith, length-reverse s)

pub trim_right_start : (s : Text) → (r : Text) × (s ≡ trim_right s ++ r)
unfolding trim_right
trim_right_start s =
    let (l, e) = trim_loop_end (length s) (map_reverse space_chars) (reverse s) in
    (reverse l, sym (reverse-reverse s) ∙ ap reverse e ∙ reverse-append l _)

pub trim_space-IsTrimmed : (s : Text) → IsTrimmed (trim_space s)
unfolding trim_space trim_left
trim_space-IsTrimmed s =
    let (r, e) = trim_right_start (trim_left s) in
    let clear = trim_loop_total (length s) space_chars s All-IsFilled (omega arith) in
    record {
      left =
          leading_weaken space_chars (trim_space s) r All-IsFilled
            (subst (λ z. leading space_chars z ≡ 0) e clear);
      right = trim_right_idem (trim_left s);
    }

pub trim_left_done : (t : Text) → leading space_chars t ≡ 0 → trim_left t ≡ t
unfolding trim_left
trim_left_done t e = trim_loop_done (length t) space_chars t e

pub trim_space_done : (t : Text) → IsTrimmed t → trim_space t ≡ t
unfolding trim_space
trim_space_done t i = rw (trim_left_done t i.left) i.right
