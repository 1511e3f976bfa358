-- ===== src/Prelude/Blanks.antt =====
-- strings.TrimSpace of a text that is not blank.
use Prim.Native.Nat.{ℕ, zero, suc}
use mathlib.Core.Path.{◌≡◌, refl, ap, sym, ◌∙◌, subst}
use mathlib.Core.Logic.{◌≢◌, ◌⊎◌, inl, inr}
use mathlib.Core.Bool.{true, false}
use mathlib.Core.List.{
  List, [], ◌∷◌, ◌++◌, append_assoc, append-nil, reverse, reverse-append, reverse-reverse,
}
use native.Mathlib.Omega.{arith}
use cubepilot.Prelude.Tests.{◌==◌, ==_iff, Bool-cases}
use cubepilot.Prelude.Lists.{length, drop, Elem, All}
use cubepilot.Prelude.Texts.{
  Text, has_prefix, is_empty, leading, trim_loop, trim_right, trim_space, space_chars, map_reverse,
}
use cubepilot.Prelude.Searching.{has_prefix_split, has_prefix-append}
use cubepilot.Prelude.Trimming.{reverse-IsFilled}
use cubepilot.Prelude.Stripping.{IsFilled, All-IsFilled, trim_left_done}

-- Where a listed encoding begins a text, it is one of the list, and what is dropped.
leading-Elem :
    (ws : List Text) (s : Text)
    → leading ws s ≢ 0
    → (w : Text) × Elem w ws × (s ≡ w ++ drop (leading ws s) s)
unfolding leading
leading-Elem [] s n = absurd (n refl)
leading-Elem (w ∷ ws) s n = elim (Bool-cases (has_prefix s w)) [
  | inl t ↦ (w, inl refl, rw t (has_prefix_split s w t))
  | inr f ↦ let (v, m, e) = leading-Elem ws s (rw f at n) in (v, inr m, rw f e)
]

Elem-leading : (ws : List Text) (u r : Text) → All IsFilled ws → Elem u ws → leading ws (u ++ r) ≢ 0
unfolding leading
Elem-leading [] u r a m e = m
Elem-leading ([] ∷ ws) u r (f, a) m e = absurd (grind (arith, f))
Elem-leading ((c ∷ w) ∷ ws) u r (f, a) (inl q) e = absurd (
    ground (
      arith,
      e,
      subst (λ z. has_prefix (z ++ r) (c ∷ w) ≡ true) (sym q) (has_prefix-append (c ∷ w) r),
    ))
Elem-leading ((c ∷ w) ∷ ws) u r (f, a) (inr m) e = ground (arith, e, Elem-leading ws u r a m)

-- Where the loop leaves nothing of a text, a listed encoding ends it.
trim_loop-nothing :
    (f : ℕ) (ws : List Text) (s : Text)
    → trim_loop f ws s ≡ []
    → (s ≡ []) ⊎ ((l : Text) × (w : Text) × Elem w ws × (s ≡ l ++ w))
unfolding trim_loop
trim_loop-nothing zero ws s e = inl e
trim_loop-nothing (suc f) ws s e = elim (Bool-cases (leading ws s == 0)) [
  | inl t ↦ inl (rw t at e)
  | inr t ↦
      let (w, m, q) = leading-Elem ws s (λ z. ground (arith, t, ==_iff (leading ws s) 0, z)) in
      elim (trim_loop-nothing f ws (drop (leading ws s) s) (rw t at e)) [
        | inl d ↦ inr ([], w, m, q ∙ ap (λ z. w ++ z) d ∙ append-nil w)
        | inr (l, v, k, d) ↦ inr (w ++ l, v, k, q ∙ ap (λ z. w ++ z) d ∙ sym (append_assoc w l v))
      ]
]

Elem-map_reverse : (v : Text) (ws : List Text) → Elem v (map_reverse ws) → Elem (reverse v) ws
Elem-map_reverse v [] m = m
Elem-map_reverse v (w ∷ ws) (inl e) = inl (ap reverse e ∙ reverse-reverse w)
Elem-map_reverse v (w ∷ ws) (inr m) = inr (Elem-map_reverse v ws m)

empty_nil : (t : Text) → is_empty t ≡ true → t ≡ []
empty_nil [] e = refl
empty_nil (c ∷ t) e = absurd (grind (arith, e))

-- A text that begins with a character that is not blank is not blank.
trim_right_nothing : (s : Text) → IsFilled s → leading space_chars s ≡ 0 → trim_right s ≢ []
unfolding trim_right
trim_right_nothing s f n e =
    let z = trim_loop (length s) (map_reverse space_chars) (reverse s) in
    elim (trim_loop-nothing (length s) (map_reverse space_chars) (reverse s)
      (sym (reverse-reverse z) ∙ ap reverse e)) [
        | inl q ↦ grind (arith, sym (reverse-IsFilled s f) ∙ ap is_empty q)
        | inr (l, w, m, q) ↦
            let whole : s ≡ reverse w ++ reverse l =
              sym (reverse-reverse s) ∙ ap reverse q ∙ reverse-append l w in
            Elem-leading space_chars (reverse w) (reverse l) All-IsFilled
              (Elem-map_reverse w space_chars m) (subst (λ z. leading space_chars z ≡ 0) whole n)
      ]

pub trim_space_clear :
    (s : Text) → IsFilled s → leading space_chars s ≡ 0 → is_empty (trim_space s) ≡ false
unfolding trim_space
trim_space_clear s f n = elim (Bool-cases (is_empty (trim_space s))) [
  | inr e ↦ e
  | inl e ↦ absurd (
      trim_right_nothing s f n
        (ap trim_right (sym (trim_left_done s n)) ∙ empty_nil (trim_space s) e))
]
