-- ===== src/Workspace/Samples.antt =====
-- A file with notes around an old block, a stray end marker among them, and the theorems at it.
use cubepilot.Prelude.{
  ◌≡◌, refl, false, ◌∷◌, ◌++◌, none, some, Text, utf8, is_empty, trim_space, text_contains,
}
use cubepilot.Workspace.{
  managed_start, managed_end, validate, validate_rendered, managed_block_body,
  reconcile_managed_block, regular, read_no_follow,
}
use cubepilot.Prelude.{trim_left, trim_right, trim_loop, space_chars, leading, has_prefix}
use cubepilot.Workspace.{validate_against, rune_count, rune_loop, rune_extra, next_in}
use cubepilot.Workspace.Persona.{persona_text}
use cubepilot.Workspace.Block.{reconcile_managed_block-reconcile_managed_block}
use cubepilot.Workspace.Budget.{validate-validate_rendered}

abbrev notes : Text
notes =
    utf8 "# Notes <!-- cubepilot:system-prompt:end --> "
    ++ b'\n' ∷ (managed_start ++ utf8 " old " ++ managed_end ++ b'\n' ∷ utf8 "Mine.")

abbrev brief : Text
brief = utf8 " Answer briefly. "

abbrev long : Text
long = utf8 "Explain each step."

brief_filled : is_empty (trim_space brief) ≡ false
unfolding trim_space trim_left trim_right trim_loop space_chars leading has_prefix
brief_filled = refl

long_filled : is_empty (trim_space long) ≡ false
unfolding trim_space trim_left trim_right trim_loop space_chars leading has_prefix
long_filled = refl

brief_end : text_contains (trim_space brief) managed_end ≡ false
unfolding trim_space trim_left trim_right trim_loop space_chars leading has_prefix text_contains
brief_end = refl

brief_accepted : validate brief ≡ none
unfolding validate validate_against trim_space trim_left trim_right trim_loop space_chars leading
    has_prefix text_contains rune_count rune_loop rune_extra next_in
brief_accepted = refl

notes_read : read_no_follow (regular notes) ≡ some notes
unfolding read_no_follow
notes_read = refl

reconcile_managed_block-reconcile_managed_block_example :
    reconcile_managed_block (reconcile_managed_block notes brief) long
    ≡ reconcile_managed_block notes long
reconcile_managed_block-reconcile_managed_block_example =
    reconcile_managed_block-reconcile_managed_block notes brief long brief_filled brief_end
      long_filled

validate-validate_rendered_example :
    validate_rendered (managed_block_body persona_text brief) ≡ none
validate-validate_rendered_example = validate-validate_rendered brief brief_accepted
