-- ===== src/Workspace/Budget.antt =====
-- internal/instructions/policy.go against managedBlockBody of internal/supervisor/supervisor.go:
-- what the API accepts fits the managed block.
use cubepilot.Prelude.{
  ℕ, ◌+◌, ◌-◌, ◌≤◌, ◌≡◌, refl, sym, subst, false, ◌||◌, [], ◌∷◌, ◌++◌, none, Text, is_empty,
  trim_space, text_contains, arith, inl, inr, Bool-cases,
}
use cubepilot.Prelude.Searching.{text_contains-line}
use cubepilot.Prelude.Trimming.{lines_IsTrimmed}
use cubepilot.Prelude.Stripping.{IsTrimmed, trim_space-IsTrimmed, trim_space_done}
use cubepilot.Workspace.{
  managed_start, managed_end, max_chars, persona_reserve_chars, system_prompt_header, rune_count,
  validate_against, validate, validate_rendered, managed_block_body, rune_loop, rune_extra, next_in,
}
use cubepilot.Workspace.Persona.{persona_text, joined}
use cubepilot.Workspace.Block.{start_IsInline, end_IsInline}
use cubepilot.Workspace.Runes.{rune_count-line}
use cubepilot.Prelude.{◌↔◌, trim_left, trim_right, trim_loop, space_chars, leading, has_prefix}

abbrev persona_trimmed : Text
persona_trimmed = trim_space persona_text

persona_front : (t : Text) × (persona_trimmed ≡ b'#' ∷ t)
unfolding persona_text joined trim_space trim_left trim_right trim_loop space_chars leading
    has_prefix
persona_front = (_, refl)

persona_runes : rune_count persona_trimmed ≡ 3040
unfolding persona_text joined trim_space trim_left trim_right trim_loop space_chars leading
    has_prefix rune_count rune_loop rune_extra next_in
persona_runes = refl

-- A text in which neither marker occurs.
abbrev pub IsUnmarked : Text → Type 0
IsUnmarked s = (text_contains s managed_start || text_contains s managed_end) ≡ false

persona_IsUnmarked : IsUnmarked persona_trimmed
unfolding persona_text joined trim_space trim_left trim_right trim_loop space_chars leading
    has_prefix text_contains
persona_IsUnmarked = refl

IsUnmarked-line : (a s : Text) → IsUnmarked a → IsUnmarked s → IsUnmarked (a ++ b'\n' ∷ s)
IsUnmarked-line a s i j =
    rw
      (
        text_contains-line a s managed_start start_IsInline,
        text_contains-line a s managed_end end_IsInline,
      )
      (ground (arith, i, j))

-- validateAgainst accepts a text of at most so many runes, less the blanks around, without markers.
pub validate_against_iff :
    (v : Text) (limit : ℕ)
    → (validate_against v limit ≡ none)
      ↔ (rune_count (trim_space v) ≤ limit) × IsUnmarked (trim_space v)
unfolding validate_against
validate_against_iff v limit = ground arith

-- The block's body where there are instructions.
abbrev headed : Text → Text
headed s = system_prompt_header ++ b'\n' ∷ b'\n' ∷ s

abbrev body : Text → Text
body s = persona_trimmed ++ b'\n' ∷ b'\n' ∷ headed s

header_runes : rune_count system_prompt_header ≡ 31
unfolding rune_count rune_loop rune_extra next_in
header_runes = refl

next_runes : (s : Text) → rune_count (b'\n' ∷ s) ≡ 1 + rune_count s
unfolding rune_count rune_loop rune_extra
next_runes s = omega arith

body_runes : (s : Text) → rune_count (body s) ≡ 3075 + rune_count s
body_runes s = omega (
  arith,
  persona_runes,
  header_runes,
  rune_count-line persona_trimmed (b'\n' ∷ headed s),
  next_runes (headed s),
  rune_count-line system_prompt_header (b'\n' ∷ s),
  next_runes s,
)

body-IsUnmarked : (s : Text) → IsUnmarked s → IsUnmarked (body s)
unfolding text_contains has_prefix
body-IsUnmarked s i = IsUnmarked-line persona_trimmed (b'\n' ∷ headed s) persona_IsUnmarked (
    IsUnmarked-line [] (headed s) refl
      (IsUnmarked-line system_prompt_header (b'\n' ∷ s) refl (IsUnmarked-line [] s refl i)))

body-IsTrimmed : (s : Text) → is_empty s ≡ false → IsTrimmed s → IsTrimmed (body s)
body-IsTrimmed s f i =
    let (t, e) = persona_front in
    subst (λ z. IsTrimmed (z ++ b'\n' ∷ b'\n' ∷ headed s)) (sym e)
      (lines_IsTrimmed b'#' t (b'\n' ∷ (system_prompt_header ++ b'\n' ∷ [])) s
        (subst IsTrimmed e (trim_space-IsTrimmed persona_text)) f i)

-- A block's body is trimmed, and never blank.
managed_block_body-IsTrimmed : (text : Text) → IsTrimmed (managed_block_body persona_text text)
unfolding managed_block_body
managed_block_body-IsTrimmed text = elim (Bool-cases (is_empty (trim_space text))) [
  | inl e ↦ rw e (trim_space-IsTrimmed persona_text)
  | inr f ↦ rw f (body-IsTrimmed (trim_space text) f (trim_space-IsTrimmed text))
]

filled_front : (s : Text) → is_empty (persona_trimmed ++ s) ≡ false
filled_front s = let (t, e) = persona_front in rw e refl

pub managed_block_body_filled :
    (text : Text) → is_empty (trim_space (managed_block_body persona_text text)) ≡ false
unfolding managed_block_body
managed_block_body_filled text =
    rw (trim_space_done (managed_block_body persona_text text) (managed_block_body-IsTrimmed text))
      (elim (Bool-cases (is_empty (trim_space text))) [
        | inl e ↦ rw e (rw persona_front.1 refl)
        | inr f ↦ rw f (filled_front (b'\n' ∷ b'\n' ∷ headed (trim_space text)))
      ])

accepted :
    (b : Text) → IsTrimmed b → rune_count b ≤ max_chars → IsUnmarked b → validate_rendered b ≡ none
unfolding validate_rendered
accepted b t l u =
    (validate_against_iff b max_chars).1
      (subst (λ z. (rune_count z ≤ max_chars) × IsUnmarked z) (sym (trim_space_done b t)) (l, u))

-- Instructions that Validate accepts are accepted, too, as they are rendered: with the operating
-- conventions and the heading in front of them, the managed block's body is within the limit that
-- ValidateRendered allows and holds no marker, so that syncAgentsFile never turns down, and skips,
-- what the API has let in.
pub validate-validate_rendered :
    (text : Text)
    → validate text ≡ none
    → validate_rendered (managed_block_body persona_text text) ≡ none
unfolding validate managed_block_body
validate-validate_rendered text h =
    let s = trim_space text in
    let (l, u) = (validate_against_iff text (max_chars - persona_reserve_chars)).0 h in
    elim (Bool-cases (is_empty s)) [
      | inl e ↦ rw e (
          accepted persona_trimmed (trim_space-IsTrimmed persona_text)
            (omega (arith, persona_runes)) persona_IsUnmarked)
      | inr f ↦ rw f (
          accepted (body s) (body-IsTrimmed s f (trim_space-IsTrimmed text))
            (omega (arith, body_runes s, l)) (body-IsUnmarked s u))
    ]
