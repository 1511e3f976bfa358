-- ===== src/Approvals/Handling/Words.antt =====
-- strings.Fields, which deriveAllowAlwaysRule of internal/server/handlers_agent_approval.go reads a
-- command with.
use cubepilot.Prelude.{
  ℕ, zero, suc, ◌≡◌, refl, sym, subst, false, [], ◌∷◌, ◌++◌, Text, is_empty, has_prefix, Elem, All,
  arith, inl, inr, if◌then◌else◌, ◌==◌, ==_iff, ◌≢◌, leading, space_chars, drop, length,
  append_assoc,
}
use cubepilot.Prelude.{if_elim, Elem-append_cases}
use cubepilot.Prelude.Stripping.{leading_weaken, All-IsFilled}
use cubepilot.Schedule.{fields, fields_loop}

-- A word of strings.Fields: it begins with a character that is not blank, and has no space in it.
pub record IsWord (w : Text) : Type 0 where
  pub filled : is_empty w ≡ false
  pub clear : leading space_chars w ≡ 0
  pub no_space : ¬ Elem b' ' w

-- The word that is being read, in front of the rest.
record IsReading (cur s : Text) : Type 0 where
  clear : is_empty cur ≡ false → leading space_chars (cur ++ s) ≡ 0
  no_space : ¬ Elem b' ' cur

IsWord-read : (cur s : Text) → IsReading cur s → is_empty cur ≡ false → IsWord cur
IsWord-read cur s i f = record {
  filled = f;
  clear = leading_weaken space_chars cur s All-IsFilled (i.clear f);
  no_space = i.no_space;
}

fields_read : (cur s : Text) → IsReading cur s → All IsWord (if is_empty cur then [] else cur ∷ [])
fields_read cur s i =
    if_elim (All IsWord) (is_empty cur) [] (cur ∷ []) (λ _. tt) (λ f. (IsWord-read cur s i f, tt))

space_blank : (s : Text) → leading space_chars (b' ' ∷ s) ≢ 0
unfolding leading space_chars has_prefix
space_blank s e = ground (arith, e)

read_on :
    (cur : Text) (c : ℕ) (s : Text)
    → IsReading cur (c ∷ s)
    → leading space_chars (c ∷ s) ≡ 0
    → IsReading (cur ++ c ∷ []) s
read_on cur c s i n = record {
  clear = λ _.
      subst (λ z. leading space_chars z ≡ 0) (sym (append_assoc cur (c ∷ []) s))
        (start cur i.clear);
  no_space = λ h. elim (Elem-append_cases b' ' cur (c ∷ []) h) [
    | inl m ↦ i.no_space m
    | inr (inl e) ↦ space_blank s (subst (λ z. leading space_chars (z ∷ s) ≡ 0) (sym e) n)
    | inr (inr w) ↦ w
  ];
}
  where
    start :
        (cur : Text)
        → (is_empty cur ≡ false → leading space_chars (cur ++ c ∷ s) ≡ 0)
        → leading space_chars (cur ++ c ∷ s) ≡ 0
    start [] h = n
    start (x ∷ xs) h = h refl

fields_loop-IsWord : (f : ℕ) (cur s : Text) → IsReading cur s → All IsWord (fields_loop f cur s)
unfolding fields_loop
fields_loop-IsWord zero cur s i = fields_read cur s i
fields_loop-IsWord (suc f) cur [] i = fields_read cur [] i
fields_loop-IsWord (suc f) cur (c ∷ s) i =
    let n = leading space_chars (c ∷ s) in
    let fresh =
      fields_loop-IsWord f [] (drop n (c ∷ s))
        (record { clear = λ h. absurd (grind (arith, h)); no_space = λ h. h }) in
    if_elim (All IsWord) (n == 0) (fields_loop f (cur ++ c ∷ []) s) _
      (λ t. fields_loop-IsWord f (cur ++ c ∷ []) s (read_on cur c s i ((==_iff n 0).0 t)))
      (λ _.
        if_elim (All IsWord) (is_empty cur) (fields_loop f [] (drop n (c ∷ s))) _ (λ _. fresh)
          (λ e. (IsWord-read cur (c ∷ s) i e, fresh)))

-- All words of a command.
pub fields-IsWord : (s : Text) → All IsWord (fields s)
unfolding fields
fields-IsWord s =
    fields_loop-IsWord (length s) [] s
      (record { clear = λ h. absurd (grind (arith, h)); no_space = λ h. h })
