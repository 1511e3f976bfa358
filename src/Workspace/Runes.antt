-- ===== src/Workspace/Runes.antt =====
-- utf8.RuneCountInString: the runes of two lines are counted apart.
use cubepilot.Prelude.{
  ℕ, zero, suc, ◌+◌, ◌≤◌, ◌≡◌, refl, ap, ◌∙◌, [], ◌∷◌, ◌++◌, Text, arith, length, length-append,
  length-drop, drop,
}
use cubepilot.Workspace.{next_in, rune_extra, rune_loop, rune_count}

-- The bytes behind the first one are there, and a line's end is none of them.
rune_extra_bound : (c : ℕ) (s : Text) → rune_extra c s ≤ length s
unfolding rune_extra next_in
rune_extra_bound c [] = ground arith
rune_extra_bound c (x ∷ []) = ground arith
rune_extra_bound c (x ∷ y ∷ []) = ground arith
rune_extra_bound c (x ∷ y ∷ z ∷ s) = ground arith

rune_extra_line : (c : ℕ) (a s : Text) → rune_extra c (a ++ b'\n' ∷ s) ≡ rune_extra c a
unfolding rune_extra next_in
rune_extra_line c [] s = ground arith
rune_extra_line c (x ∷ []) s = ground arith
rune_extra_line c (x ∷ y ∷ []) s = ground arith
rune_extra_line c (x ∷ y ∷ z ∷ a) s = refl

rune_loop_fuel : (f g : ℕ) (s : Text) → length s ≤ f → length s ≤ g → rune_loop f s ≡ rune_loop g s
unfolding rune_loop
rune_loop_fuel zero zero s l m = refl
rune_loop_fuel zero (suc g) [] l m = refl
rune_loop_fuel (suc f) zero [] l m = refl
rune_loop_fuel (suc f) (suc g) [] l m = refl
rune_loop_fuel zero (suc g) (c ∷ s) l m = absurd (grind (arith, l))
rune_loop_fuel (suc f) zero (c ∷ s) l m = absurd (grind (arith, m))
rune_loop_fuel (suc f) (suc g) (c ∷ s) l m =
    let e = rune_extra c s in
    ap suc (
      rune_loop_fuel f g (drop e s) (omega (arith, l, length-drop e s))
        (omega (arith, m, length-drop e s)))

drop-append_le : (n : ℕ) (a s : Text) → n ≤ length a → drop n (a ++ s) ≡ drop n a ++ s
drop-append_le zero a s l = refl
drop-append_le (suc n) [] s l = absurd (grind (arith, l))
drop-append_le (suc n) (c ∷ a) s l = drop-append_le n a s (omega (arith, l))

rune_loop_nil : (f : ℕ) → rune_loop f [] ≡ 0
unfolding rune_loop
rune_loop_nil zero = refl
rune_loop_nil (suc f) = refl

rune_loop_line :
    (k f : ℕ) (a s : Text)
    → length a + suc (length s) ≤ k
    → length a ≤ f
    → rune_loop k (a ++ b'\n' ∷ s) ≡ rune_loop f a + suc (rune_count s)
unfolding rune_loop rune_count rune_extra
rune_loop_line zero f a s l m = absurd (omega (arith, l))
rune_loop_line (suc k) f [] s l m =
    omega (arith, rune_loop_nil f, rune_loop_fuel k (length s) s (omega (arith, l)) (omega arith))
rune_loop_line (suc k) zero (c ∷ a) s l m = absurd (grind (arith, m))
rune_loop_line (suc k) (suc f) (c ∷ a) s l m =
    let e = rune_extra c a in
    let next : drop (rune_extra c (a ++ b'\n' ∷ s)) (a ++ b'\n' ∷ s) ≡ drop e a ++ b'\n' ∷ s =
      ap (λ z. drop z (a ++ b'\n' ∷ s)) (rune_extra_line c a s)
      ∙ drop-append_le e a (b'\n' ∷ s) (rune_extra_bound c a) in
    rw next (
      omega (
        arith,
        rune_loop_line k f (drop e a) s (omega (arith, l, length-drop e a))
            (omega (arith, m, length-drop e a)),
      ))

-- A text of two lines has the runes of both and its line's end.
pub rune_count-line : (a s : Text) → rune_count (a ++ b'\n' ∷ s) ≡ rune_count a + suc (rune_count s)
unfolding rune_count
rune_count-line a s =
    rune_loop_line (length (a ++ b'\n' ∷ s)) (length a) a s
      (omega (arith, length-append a (b'\n' ∷ s))) (omega arith)
