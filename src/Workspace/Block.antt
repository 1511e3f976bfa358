-- ===== src/Workspace/Block.antt =====
-- reconcileManagedBlock of internal/supervisor/supervisor.go: the text outside the managed block.
use cubepilot.Prelude.{
  Option-cases, utf8, length-append, ◌≡◌, refl, ap, sym, ◌∙◌, subst, true, false, [], ◌∷◌, ◌++◌,
  append_assoc, some, Text, is_empty, trim_space, trim_left, trim_right, trim_loop, space_chars,
  leading, text_contains, has_prefix, arith, inl, inr, Bool-cases, if◌then◌else◌,
}
use mathlib.Core.List.{reverse, reverse-append, reverse-reverse}
use cubepilot.Prelude.Searching.{
  IsInline-by_run, cut, IsInline, cut-found, cut-nothing, cut_here, cut-line,
}
use cubepilot.Prelude.Trimming.{
  trim_space-newline, trim_space_line, trim_space_lines, text_contains-trim_space,
}
use cubepilot.Prelude.Stripping.{IsTrimmed, trim_space-IsTrimmed, trim_space_done}
use cubepilot.Workspace.{
  managed_start, managed_end, managed_block, flush, splice_sections, outside,
  reconcile_managed_block,
}

pub start_IsInline : IsInline managed_start
unfolding text_contains has_prefix
start_IsInline = IsInline-by_run managed_start refl refl

pub end_IsInline : IsInline managed_end
unfolding text_contains has_prefix
end_IsInline = IsInline-by_run managed_end refl refl

start_apart : text_contains managed_start managed_end ≡ false
unfolding text_contains has_prefix
start_apart = refl

-- What a spliced file holds before and behind its block.
abbrev before : Text → Text
before [] = []
before (c ∷ t) = c ∷ (t ++ b'\n' ∷ b'\n' ∷ [])

abbrev behind : Text → Text
behind [] = b'\n' ∷ []
behind (c ∷ t) = b'\n' ∷ b'\n' ∷ (c ∷ (t ++ b'\n' ∷ []))

trim_space-before : (p : Text) → IsTrimmed p → trim_space (before p) ≡ p
unfolding trim_space trim_left trim_right trim_loop leading
trim_space-before [] i = refl
trim_space-before (c ∷ t) i = trim_space_lines c t i

trim_space-behind : (s : Text) → IsTrimmed s → trim_space (behind s) ≡ s
unfolding trim_space trim_left trim_right trim_loop leading
trim_space-behind [] i = trim_space-newline [] ∙ trim_space_done [] i
trim_space-behind (c ∷ t) i =
    trim_space-newline (b'\n' ∷ (c ∷ (t ++ b'\n' ∷ [])))
    ∙ trim_space-newline (c ∷ (t ++ b'\n' ∷ []))
    ∙ trim_space_line c t i

abbrev added : Text → Text → Text
added out t = if is_empty t then out else if is_empty out then t else out ++ b'\n' ∷ b'\n' ∷ t

abbrev closed : Text → Text
closed out = if is_empty out then [] else out ++ b'\n' ∷ []

splice_cases :
    (p b s : Text)
    → is_empty b ≡ false
    → closed (added (added (added [] p) b) s) ≡ before p ++ (b ++ behind s)
splice_cases p [] s h = absurd (grind (arith, h))
splice_cases [] (d ∷ b) [] h = refl
splice_cases [] (d ∷ b) (c ∷ s) h = append_assoc (d ∷ b) _ _
splice_cases (e ∷ p) (d ∷ b) [] h = ap (λ z. e ∷ z) (simp append_assoc)
splice_cases (e ∷ p) (d ∷ b) (c ∷ s) h = ap (λ z. e ∷ z) (simp append_assoc)

-- A text that begins with `<` and ends with `>` is trimmed.
angle_IsTrimmed : (x : Text) → IsTrimmed (b'<' ∷ (x ++ b'>' ∷ []))
unfolding trim_right trim_loop space_chars leading has_prefix
angle_IsTrimmed x = record {
  left = refl;
  right =
      rw (length-append x (b'>' ∷ []), turned)
        (ap reverse (sym turned) ∙ reverse-reverse (b'<' ∷ (x ++ b'>' ∷ [])));
}
  where
    turned : reverse (b'<' ∷ (x ++ b'>' ∷ [])) ≡ b'>' ∷ (reverse x ++ b'<' ∷ [])
    turned =
        reverse-append (b'<' ∷ x) (b'>' ∷ []) ∙ ap (λ z. b'>' ∷ z) (reverse-append (b'<' ∷ []) x)

-- A block that is not empty.
managed_block_filled :
    (d : Text)
    → is_empty (trim_space d) ≡ false
    → managed_block d ≡ managed_start ++ b'\n' ∷ (trim_space d ++ b'\n' ∷ managed_end)
unfolding managed_block
managed_block_filled d f = rw f refl

managed_block_empty : (d : Text) → is_empty (trim_space d) ≡ true → managed_block d ≡ []
unfolding managed_block
managed_block_empty d e = rw e refl

abbrev start_back : Text
start_back = utf8 "!-- cubepilot:system-prompt:start -->"

abbrev end_front : Text
end_front = utf8 "<!-- cubepilot:system-prompt:end --"

managed_block-IsTrimmed : (d : Text) → IsTrimmed (managed_block d)
unfolding trim_right trim_loop space_chars leading has_prefix
managed_block-IsTrimmed d = elim (Bool-cases (is_empty (trim_space d))) [
  | inl e ↦ rw (managed_block_empty d e) (record { left = refl; right = refl })
  | inr f ↦ rw (managed_block_filled d f) (
      subst IsTrimmed
        (ap (λ z. b'<' ∷ z)
          (append_assoc start_back (b'\n' ∷ (trim_space d ++ b'\n' ∷ end_front)) (b'>' ∷ [])
            ∙ ap (λ z. start_back ++ b'\n' ∷ z)
                (append_assoc (trim_space d) (b'\n' ∷ end_front) (b'>' ∷ []))))
        (angle_IsTrimmed (start_back ++ b'\n' ∷ (trim_space d ++ b'\n' ∷ end_front))))
]

splice_form :
    (p d s : Text)
    → is_empty (trim_space d) ≡ false
    → splice_sections p (managed_block d) s
      ≡ before (trim_space p) ++ (managed_block d ++ behind (trim_space s))
unfolding splice_sections flush
splice_form p d s f =
    ap (λ z. closed (added (added (added [] (trim_space p)) z) (trim_space s)))
      (trim_space_done (managed_block d) (managed_block-IsTrimmed d))
    ∙ splice_cases (trim_space p) (managed_block d) (trim_space s)
        (rw (managed_block_filled d f) refl)

cut-before :
    (p r : Text)
    → text_contains p managed_start ≡ false
    → cut (before p ++ (managed_start ++ r)) managed_start ≡ some (before p, r)
unfolding text_contains has_prefix
cut-before [] r n = cut_here managed_start r refl
cut-before (c ∷ p) r n =
    ap (λ z. cut (c ∷ z) managed_start) (append_assoc p (b'\n' ∷ b'\n' ∷ []) (managed_start ++ r))
    ∙ cut-line (c ∷ p) _ managed_start (b'\n' ∷ []) r start_IsInline n
        (cut-line [] _ managed_start [] r start_IsInline refl (cut_here managed_start r refl))

cut-managed_end :
    (t s : Text)
    → text_contains t managed_end ≡ false
    → (x : Text) × (cut (managed_start ++ (b'\n' ∷ (t ++ b'\n' ∷ (managed_end ++ s)))) managed_end
        ≡ some (x, s))
cut-managed_end t s n = (
  managed_start ++ b'\n' ∷ (t ++ b'\n' ∷ []),
  cut-line managed_start _ managed_end _ s end_IsInline start_apart
      (cut-line t _ managed_end [] s end_IsInline n (cut_here managed_end s refl)),
)

outside-found :
    (cur a r x s : Text)
    → cut cur managed_start ≡ some (a, r)
    → cut (managed_start ++ r) managed_end ≡ some (x, s)
    → outside cur ≡ (a, s)
unfolding outside
outside-found cur a r x s e f = rw (e, outside) (rw f refl)

-- What is found outside the block that a splice has put there.
outside_splice :
    (p d s : Text)
    → is_empty (trim_space d) ≡ false
    → text_contains (trim_space d) managed_end ≡ false
    → text_contains p managed_start ≡ false
    → outside (before p ++ (managed_block d ++ behind s)) ≡ (before p, behind s)
outside_splice p d s f n m =
    let r = b'\n' ∷ (trim_space d ++ b'\n' ∷ (managed_end ++ behind s)) in
    let (x, e) = cut-managed_end (trim_space d) (behind s) n in
    ap (λ z. outside (before p ++ z))
      (rw (managed_block_filled d f) (
        ap (λ z. managed_start ++ b'\n' ∷ z)
          (append_assoc (trim_space d) (b'\n' ∷ managed_end) (behind s))))
    ∙ outside-found (before p ++ (managed_start ++ r)) (before p) r x (behind s) (cut-before p r m)
        e

-- No start marker stands before what is taken for the block.
outside_clear : (cur : Text) → text_contains (outside cur).0 managed_start ≡ false
unfolding outside
outside_clear cur = elim (Option-cases (cut cur managed_start)) [
  | inl e ↦ rw (e, outside) (cut-nothing cur managed_start e)
  | inr ((a, r), e) ↦
      let clear = (cut-found cur managed_start a r refl e).1 in
      elim (Option-cases (cut (managed_start ++ r) managed_end)) [
        | inl f ↦ rw (e, outside) (rw f clear)
        | inr ((x, s), f) ↦ rw (e, outside) (rw f clear)
      ]
]

-- The text that a file holds outside its block, less the blanks around.
unfoldable pub outside_trimmed : Text → Text × Text
outside_trimmed cur = let (p, s) = outside cur in (trim_space p, trim_space s)

-- A file is rebuilt from the trimmed text outside and the block.
reconcile_form :
    (cur d : Text)
    → is_empty (trim_space d) ≡ false
    → reconcile_managed_block cur d
      ≡ before (outside_trimmed cur).0 ++ (managed_block d ++ behind (outside_trimmed cur).1)
unfolding reconcile_managed_block outside_trimmed
reconcile_form cur d f = splice_form (outside cur).0 d (outside cur).1 f

append_filled : (a b : Text) → is_empty b ≡ false → is_empty (a ++ b) ≡ false
append_filled [] b f = f
append_filled (c ∷ a) b f = refl

-- A file with a block is not empty.
pub reconcile_managed_block_filled :
    (cur d : Text)
    → is_empty (trim_space d) ≡ false
    → is_empty (reconcile_managed_block cur d) ≡ false
reconcile_managed_block_filled cur d f =
    ap is_empty (reconcile_form cur d f)
    ∙ append_filled (before (outside_trimmed cur).0) _ (rw (managed_block_filled d f) refl)

-- Whatever a file holds outside its managed block is there, but for blanks around it, after the block
-- has been replaced by one for any desired text that is not blank and has no end marker in it: the
-- block is found again at its place, and nothing of the user's text is taken for a part of it.
pub outside_trimmed-reconcile_managed_block :
    (cur d : Text)
    → is_empty (trim_space d) ≡ false
    → text_contains (trim_space d) managed_end ≡ false
    → outside_trimmed (reconcile_managed_block cur d) ≡ outside_trimmed cur
unfolding outside_trimmed
outside_trimmed-reconcile_managed_block cur d f n =
    let (p, s) = outside cur in
    ap (λ z. outside_trimmed z) (reconcile_form cur d f)
    ∙ ap (λ (a, b). (trim_space a, trim_space b))
        (outside_splice (trim_space p) d (trim_space s) f n
          (text_contains-trim_space p managed_start refl (outside_clear cur)))
    ∙ rw (trim_space-before (trim_space p) (trim_space-IsTrimmed p))
        (rw (trim_space-behind (trim_space s) (trim_space-IsTrimmed s)) refl)

-- The block of a later desired text replaces that of an earlier one: reconciling a file with two texts
-- one after the other, of which neither is blank and the first has no end marker in it, gives what
-- reconciling it with the second alone gives. So a repeated sync leaves the file as it is.
pub reconcile_managed_block-reconcile_managed_block :
    (cur d e : Text)
    → is_empty (trim_space d) ≡ false
    → text_contains (trim_space d) managed_end ≡ false
    → is_empty (trim_space e) ≡ false
    → reconcile_managed_block (reconcile_managed_block cur d) e ≡ reconcile_managed_block cur e
reconcile_managed_block-reconcile_managed_block cur d e f n g =
    reconcile_form (reconcile_managed_block cur d) e g
    ∙ ap (λ (a, b). before a ++ (managed_block e ++ behind b))
        (outside_trimmed-reconcile_managed_block cur d f n)
    ∙ sym (reconcile_form cur e g)
