-- ===== src/Workspace/Sync.antt =====
-- syncAgentsFile of internal/supervisor/supervisor.go: one sync brings the file up to date.
use cubepilot.Prelude.{
  ◌≡◌, refl, Bool, true, false, none, some, Text, is_empty, trim_space, text_contains, text_eq,
  text_eq_refl, arith,
}
use cubepilot.Prelude.Stripping.{trim_space-IsTrimmed, trim_space_done}
use cubepilot.Workspace.{
  managed_end, max_chars, validate, validate_against, validate_rendered, managed_block_body,
  reconcile_managed_block, FileState, absent, symlink, irregular, unreadable, regular,
  read_no_follow, sync_agents_file,
}
use cubepilot.Workspace.Persona.{persona_text}
use cubepilot.Workspace.Budget.{IsUnmarked, validate_against_iff, validate-validate_rendered}

-- The block's body for instructions.
abbrev pub desired : Text → Text
desired text = managed_block_body persona_text (trim_space text)

unmarked_end : (s : Text) → IsUnmarked s → text_contains s managed_end ≡ false
unmarked_end s u = ground (arith, u)

validate-trim_space : (text : Text) → validate text ≡ none → validate (trim_space text) ≡ none
unfolding validate validate_against
validate-trim_space text h = rw (trim_space_done (trim_space text) (trim_space-IsTrimmed text)) h

accepted_rendered : (text : Text) → validate text ≡ none → validate_rendered (desired text) ≡ none
accepted_rendered text h = validate-validate_rendered (trim_space text) (validate-trim_space text h)

accepted_end :
    (text : Text)
    → validate text ≡ none
    → text_contains (trim_space (desired text)) managed_end ≡ false
unfolding validate_rendered
accepted_end text h =
    unmarked_end (trim_space (desired text))
      ((validate_against_iff (desired text) max_chars).0 (accepted_rendered text h)).1

-- A sync with a body that is accepted, on a file that can be read.
sync_unchanged :
    (text cur : Text) (f : FileState) (written : Bool)
    → validate_rendered (desired text) ≡ none
    → read_no_follow f ≡ some cur
    → reconcile_managed_block cur (desired text) ≡ cur
    → sync_agents_file persona_text written text f ≡ (true, f)
unfolding sync_agents_file
sync_unchanged text cur f written v e same =
    rw (v, sync_agents_file) (rw e (rw (same, text_eq_refl cur) refl))

sync_changed :
    (text cur : Text) (f : FileState)
    → validate_rendered (desired text) ≡ none
    → read_no_follow f ≡ some cur
    → text_eq (reconcile_managed_block cur (desired text)) cur ≡ false
    → sync_agents_file persona_text true text f
      ≡ (true, regular (reconcile_managed_block cur (desired text)))
unfolding sync_agents_file
sync_changed text cur f v e other = rw (v, sync_agents_file) (rw e (rw other refl))

-- A file whose text is not empty is a regular one.
read_filled :
    (f : FileState) (cur : Text)
    → read_no_follow f ≡ some cur
    → is_empty cur ≡ false
    → f ≡ regular cur
unfolding read_no_follow
read_filled absent cur e n = absurd (grind (arith, e, n))
read_filled symlink cur e n = absurd (grind (arith, e, n))
read_filled irregular cur e n = absurd (grind (arith, e))
read_filled unreadable cur e n = absurd (grind (arith, e))
read_filled (regular t) cur e n = grind (arith, e)
