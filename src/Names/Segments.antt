-- ===== src/Names/Segments.antt =====
-- Sanitize: every user identity becomes a DNS-1123 segment.
use cubepilot.Prelude.{
  ℕ, ◌≡◌, refl, inl, inr, Bool, true, false, not, ◌&&◌, [], ◌∷◌, arith, Text, utf8, is_empty, All,
  Bool-cases, if◌then◌else◌, ◌==◌,
}
use cubepilot.Names.{
  Host, is_name_char, replace_invalid, trim_left_dashes, trim_right_dashes, trim_dashes, sanitize,
}

abbrev pub IsNameChar : ℕ → Type 0
IsNameChar c = is_name_char c ≡ true

-- The text does not begin with a dash.
abbrev pub first_ok : Text → Bool
first_ok [] = true
first_ok (c ∷ s) = not (c == b'-')

-- The text does not end with a dash.
abbrev pub last_ok : Text → Bool
last_ok [] = true
last_ok (c ∷ []) = not (c == b'-')
last_ok (c ∷ d ∷ s) = last_ok (d ∷ s)

-- A segment of a DNS-1123 name: not empty, of the bytes [a-z0-9-], with no dash at either end.
pub record IsSegment (s : Text) : Type 0 where
  pub not_empty : is_empty s ≡ false
  pub chars : All IsNameChar s
  pub first : first_ok s ≡ true
  pub last : last_ok s ≡ true

dash-IsNameChar : is_name_char b'-' ≡ true
unfolding is_name_char
dash-IsNameChar = refl

dash-chars : (b : Bool) (s : Text) → All IsNameChar s → All IsNameChar (if b then s else b'-' ∷ s)
dash-chars true s h = h
dash-chars false s h = (dash-IsNameChar, h)

replace_invalid-chars : (inside : Bool) (s : Text) → All IsNameChar (replace_invalid inside s)
unfolding replace_invalid
replace_invalid-chars inside [] = tt
replace_invalid-chars inside (c ∷ s) = elim (Bool-cases (is_name_char c)) [
  | inl t ↦ rw t (t, replace_invalid-chars false s)
  | inr f ↦ rw f (dash-chars inside (replace_invalid true s) (replace_invalid-chars true s))
]

trim_left_dashes-chars : (s : Text) → All IsNameChar s → All IsNameChar (trim_left_dashes s)
unfolding trim_left_dashes
trim_left_dashes-chars [] h = tt
trim_left_dashes-chars (c ∷ s) (hc, h) = elim (Bool-cases (c == b'-')) [
  | inl t ↦ rw t (trim_left_dashes-chars s h)
  | inr f ↦ rw f (hc, h)
]

trim_left_dashes-first : (s : Text) → first_ok (trim_left_dashes s) ≡ true
unfolding trim_left_dashes
trim_left_dashes-first [] = refl
trim_left_dashes-first (c ∷ s) = ground (arith, trim_left_dashes-first s)

trim_right_dashes-chars : (s : Text) → All IsNameChar s → All IsNameChar (trim_right_dashes s)
unfolding trim_right_dashes
trim_right_dashes-chars [] h = tt
trim_right_dashes-chars (c ∷ s) (hc, h) =
    elim (Bool-cases (is_empty (trim_right_dashes s) && c == b'-')) [
      | inl t ↦ rw t tt
      | inr f ↦ rw f (hc, trim_right_dashes-chars s h)
    ]

trim_right_dashes-first : (s : Text) → first_ok s ≡ true → first_ok (trim_right_dashes s) ≡ true
unfolding trim_right_dashes
trim_right_dashes-first [] h = refl
trim_right_dashes-first (c ∷ s) h = ground arith

cons-last :
    (c : ℕ) (r : Text)
    → last_ok r ≡ true
    → (is_empty r && c == b'-') ≡ false
    → last_ok (c ∷ r) ≡ true
cons-last c [] h f = ground arith
cons-last c (d ∷ r) h f = h

pub trim_right_dashes-last : (s : Text) → last_ok (trim_right_dashes s) ≡ true
unfolding trim_right_dashes
trim_right_dashes-last [] = refl
trim_right_dashes-last (c ∷ s) = elim (Bool-cases (is_empty (trim_right_dashes s) && c == b'-')) [
  | inl t ↦ rw t refl
  | inr f ↦ rw f (cons-last c (trim_right_dashes s) (trim_right_dashes-last s) f)
]

user-IsSegment : IsSegment (utf8 "user")
unfolding is_name_char
user-IsSegment = record {
  not_empty = refl;
  chars = (refl, (refl, (refl, (refl, tt))));
  first = refl;
  last = refl;
}

-- Whatever the identity and the lower-casing, Sanitize gives a DNS-1123 segment.
pub sanitize-IsSegment : (h : Host) (s : Text) → IsSegment (sanitize h s)
unfolding sanitize
sanitize-IsSegment h s = elim (Bool-cases (is_empty t)) [
  | inl e ↦ rw e user-IsSegment
  | inr e ↦ rw e (record {
    not_empty = e;
    chars =
        trim_right_dashes-chars l
          (trim_left_dashes-chars r (replace_invalid-chars false (h.to_lower s)));
    first = trim_right_dashes-first l (trim_left_dashes-first r);
    last = trim_right_dashes-last l;
  })
]
  where
    r : Text
    r = replace_invalid false (h.to_lower s)

    l : Text
    l = trim_left_dashes r

    t : Text
    t = trim_dashes r
