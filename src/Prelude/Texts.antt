-- ===== src/Prelude/Texts.antt =====
-- Go strings: byte sequences, with the functions of package strings that the program calls.
use Prim.Native.Nat.{ℕ, zero, suc, ◌+◌, ◌/◌, ◌%◌}
use Prim.Native.Char.{code}
use Prim.Native.String.{String}
use mathlib.Core.Path.{◌≡◌, refl}
use mathlib.Core.Logic.{◌≢◌, ◌↔◌, ◌⊎◌, inl, inr}
use mathlib.Core.Bool.{Bool, true, false, ◌&&◌, ◌||◌}
use mathlib.Core.List.{List, [], ◌∷◌, ◌++◌, reverse}
use native.Mathlib.Omega.{arith}
use cubepilot.Prelude.Tests.{if◌then◌else◌, ltb, ◌==◌, Bool-cases}
use cubepilot.Prelude.Lists.{length, drop, Elem}

abbrev pub Text : Type 0
Text = List ℕ

-- The UTF-8 encoding of one code point.
abbrev utf8_char : ℕ → Text
utf8_char c =
    if ltb c 0x80
    then c ∷ []
    else if ltb c 0x800
    then (0xc0 + c / 64) ∷ (0x80 + c % 64) ∷ []
    else if ltb c 0x10000
    then (0xe0 + c / 4096) ∷ (0x80 + c / 64 % 64) ∷ (0x80 + c % 64) ∷ []
    else (0xf0 + c / 262144) ∷ (0x80 + c / 4096 % 64) ∷ (0x80 + c / 64 % 64) ∷ (0x80 + c % 64) ∷ []

-- A literal's bytes.
abbrev pub utf8 : String → Text
utf8 String.[] = []
utf8 (String.◌∷◌ c s) = utf8_char (code c) ++ utf8 s

-- `a == b`
unfoldable pub text_eq : Text → Text → Bool
text_eq [] [] = true
text_eq [] (y ∷ ys) = false
text_eq (x ∷ xs) [] = false
text_eq (x ∷ xs) (y ∷ ys) = (x == y) && text_eq xs ys

pub text_eq_iff : (a b : Text) → (text_eq a b ≡ true) ↔ (a ≡ b)
unfolding text_eq
text_eq_iff [] [] = ground arith
text_eq_iff [] (y ∷ ys) = ground arith
text_eq_iff (x ∷ xs) [] = ground arith
text_eq_iff (x ∷ xs) (y ∷ ys) = ground (arith, text_eq_iff xs ys)

pub text_eq_refl : (a : Text) → text_eq a a ≡ true
text_eq_refl a = (text_eq_iff a a).1 refl

pub text_eq_sym : (a b : Text) → text_eq a b ≡ text_eq b a
text_eq_sym a b = ground (arith, text_eq_iff a b, text_eq_iff b a)

pub text_eq-ne : (a b : Text) → text_eq a b ≡ false → a ≢ b
text_eq-ne a b h e = ground (arith, h, text_eq_iff a b, e)

pub text_eq_cases : (a b : Text) → (a ≡ b) × (text_eq a b ≡ true) ⊎ (a ≢ b) × (text_eq a b ≡ false)
text_eq_cases a b = elim (Bool-cases (text_eq a b)) [
  | inl t ↦ inl ((text_eq_iff a b).0 t, t)
  | inr f ↦ inr (λ e. ground (arith, (text_eq_iff a b).1 e), f)
]

-- `s == ""`
abbrev pub is_empty : Text → Bool
is_empty [] = true
is_empty (c ∷ s) = false

-- membership in a map used as a set
unfoldable pub contains : List Text → Text → Bool
contains [] t = false
contains (x ∷ xs) t = text_eq x t || contains xs t

pub contains→Elem : (xs : List Text) (t : Text) → contains xs t ≡ true → Elem t xs
unfolding contains
contains→Elem [] t h = ground arith
contains→Elem (x ∷ xs) t h = elim (text_eq_cases x t) [
  | inl (e, _) ↦ inl (ground arith)
  | inr (_, f) ↦ inr (contains→Elem xs t (ground arith))
]

pub Elem→contains : (xs : List Text) (t : Text) → Elem t xs → contains xs t ≡ true
unfolding contains
Elem→contains [] t h = absurd h
Elem→contains (x ∷ xs) t (inl e) = ground (arith, text_eq_iff x t)
Elem→contains (x ∷ xs) t (inr h) = ground (arith, Elem→contains xs t h)

-- strings.HasPrefix
unfoldable pub has_prefix : Text → Text → Bool
has_prefix s [] = true
has_prefix [] (p ∷ ps) = false
has_prefix (c ∷ s) (p ∷ ps) = (c == p) && has_prefix s ps

-- strings.Contains
unfoldable pub text_contains : Text → Text → Bool
unfolding has_prefix
text_contains [] p = has_prefix [] p
text_contains (c ∷ s) p = has_prefix (c ∷ s) p || text_contains s p

-- The encodings of the characters of unicode.IsSpace.
unfoldable pub space_chars : List Text
space_chars =
    (0x20 ∷ [])
    ∷ (0x09 ∷ [])
    ∷ (0x0a ∷ [])
    ∷ (0x0b ∷ [])
    ∷ (0x0c ∷ [])
    ∷ (0x0d ∷ [])
    ∷ utf8_char 0x85
    ∷ utf8_char 0xa0
    ∷ utf8_char 0x1680
    ∷ utf8_char 0x2000
    ∷ utf8_char 0x2001
    ∷ utf8_char 0x2002
    ∷ utf8_char 0x2003
    ∷ utf8_char 0x2004
    ∷ utf8_char 0x2005
    ∷ utf8_char 0x2006
    ∷ utf8_char 0x2007
    ∷ utf8_char 0x2008
    ∷ utf8_char 0x2009
    ∷ utf8_char 0x200a
    ∷ utf8_char 0x2028
    ∷ utf8_char 0x2029
    ∷ utf8_char 0x202f
    ∷ utf8_char 0x205f
    ∷ utf8_char 0x3000
    ∷ []

-- The length of the first listed encoding that `s` begins with; 0 if there is none.
unfoldable pub leading : List Text → Text → ℕ
unfolding has_prefix
leading [] s = 0
leading (w ∷ ws) s = if has_prefix s w then length w else leading ws s

-- Drops listed encodings from the front. Each round drops a byte at least, so the text's length
-- is fuel enough.
unfoldable pub trim_loop : ℕ → List Text → Text → Text
unfolding leading
trim_loop zero ws s = s
trim_loop (suc f) ws s =
    let n = leading ws s in let rest = trim_loop f ws (drop n s) in if n == 0 then s else rest

abbrev pub map_reverse : List Text → List Text
map_reverse [] = []
map_reverse (w ∷ ws) = reverse w ∷ map_reverse ws

unfoldable pub trim_left : Text → Text
unfolding trim_loop space_chars
trim_left s = trim_loop (length s) space_chars s

unfoldable pub trim_right : Text → Text
unfolding trim_loop space_chars
trim_right s = reverse (trim_loop (length s) (map_reverse space_chars) (reverse s))

-- strings.TrimSpace. A character's encoding ends where it begins when the text is read backwards,
-- so the right end is trimmed on the reversed text.
unfoldable pub trim_space : Text → Text
unfolding trim_left trim_right
trim_space s = trim_right (trim_left s)

trim_space_example : trim_space (utf8 " \ta b\n") ≡ utf8 "a b"
unfolding trim_space
trim_space_example = refl
