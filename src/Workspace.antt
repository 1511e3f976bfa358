-- ===== src/Workspace.antt =====
-- internal/instructions/policy.go and the managed block of AGENTS.md in
-- internal/supervisor/supervisor.go.
pub mod Persona
pub mod Runes
pub mod Block
pub mod Budget
pub mod Sync
mod Samples
use cubepilot.Prelude.{
  ℕ, zero, suc, ◌+◌, ◌-◌, ◌≡◌, Bool, true, false, not, ◌&&◌, ◌||◌, List, [], ◌∷◌, ◌++◌, Option,
  none, some, Text, utf8, is_empty, trim_space, text_contains, text_eq, leb, ltb, length, drop,
  if◌then◌else◌, ◌==◌,
}
use cubepilot.Prelude.Searching.{cut}

-- ManagedStart, ManagedEnd
abbrev pub managed_start : Text
managed_start = utf8 "<!-- cubepilot:system-prompt:start -->"

abbrev pub managed_end : Text
managed_end = utf8 "<!-- cubepilot:system-prompt:end -->"

-- MaxChars, PersonaReserveChars
abbrev pub max_chars : ℕ
max_chars = 20000

abbrev pub persona_reserve_chars : ℕ
persona_reserve_chars = 3200

-- systemPromptHeader
abbrev pub system_prompt_header : Text
system_prompt_header = utf8 "## User-configured instructions"

-- Whether the next byte lies in the range.
unfoldable pub next_in : ℕ → ℕ → Text → Bool
next_in lo hi [] = false
next_in lo hi (c ∷ s) = leb lo c && leb c hi

-- The bytes that a rune takes behind its first one, `c`; none where the encoding is not valid, since
-- such a byte counts as a rune of its own.
unfoldable pub rune_extra : ℕ → Text → ℕ
unfolding next_in
rune_extra c s =
    let lo = if c == 0xe0 then 0xa0 else if c == 0xf0 then 0x90 else 0x80 in
    let hi = if c == 0xed then 0x9f else if c == 0xf4 then 0x8f else 0xbf in
    if ltb c 0xc2
    then 0
    else if leb c 0xdf
    then (if next_in lo hi s then 1 else 0)
    else if leb c 0xef
    then (if next_in lo hi s && next_in 0x80 0xbf (drop 1 s) then 2 else 0)
    else if leb c 0xf4
    then (if next_in lo hi s && next_in 0x80 0xbf (drop 1 s) && next_in 0x80 0xbf (drop 2 s)
        then 3
        else 0)
    else 0

-- Each round drops a byte at least.
unfoldable pub rune_loop : ℕ → Text → ℕ
unfolding rune_extra
rune_loop zero s = 0
rune_loop (suc f) [] = 0
rune_loop (suc f) (c ∷ s) = suc (rune_loop f (drop (rune_extra c s) s))

-- utf8.RuneCountInString
unfoldable pub rune_count : Text → ℕ
unfolding rune_loop
rune_count s = rune_loop (length s) s

-- The errors of validateAgainst.
pub data PolicyError : Type 0 where
  too_long reserved_marker : PolicyError

-- validateAgainst
unfoldable pub validate_against : Text → ℕ → Option PolicyError
unfolding rune_count
validate_against value limit =
    let v = trim_space value in
    if ltb limit (rune_count v)
    then some too_long
    else if text_contains v managed_start || text_contains v managed_end
    then some reserved_marker
    else none

-- Validate
unfoldable pub validate : Text → Option PolicyError
unfolding validate_against
validate value = validate_against value (max_chars - persona_reserve_chars)

-- ValidateRendered
unfoldable pub validate_rendered : Text → Option PolicyError
unfolding validate_against
validate_rendered body = validate_against body max_chars

-- managedBlockBody
unfoldable pub managed_block_body : Text → Text → Text
managed_block_body persona text =
    let s = trim_space text in
    if is_empty s
    then trim_space persona
    else trim_space persona ++ b'\n' ∷ b'\n' ∷ (system_prompt_header ++ b'\n' ∷ b'\n' ∷ s)

-- The closure `flush` of spliceSections.
unfoldable pub flush : Text → Text → Text
flush out s =
    let t = trim_space s in
    if is_empty t then out else if is_empty out then t else out ++ b'\n' ∷ b'\n' ∷ t

-- spliceSections
unfoldable pub splice_sections : Text → Text → Text → Text
unfolding flush
splice_sections prefix block suffix =
    let out = flush (flush (flush [] prefix) block) suffix in
    if is_empty out then [] else out ++ b'\n' ∷ []

-- What stands before and behind the managed block: a block that does not end reaches to the end.
unfoldable pub outside : Text → Text × Text
outside current = elim (cut current managed_start) [
  | none ↦ (current, [])
  | some (prefix, rest) ↦ elim (cut (managed_start ++ rest) managed_end) [
    | none ↦ (prefix, [])
    | some (_, suffix) ↦ (prefix, suffix)
  ]
]

-- The block of a desired text.
unfoldable pub managed_block : Text → Text
managed_block desired =
    let t = trim_space desired in
    if is_empty t then [] else managed_start ++ b'\n' ∷ (t ++ b'\n' ∷ managed_end)

-- reconcileManagedBlock
unfoldable pub reconcile_managed_block : Text → Text → Text
unfolding splice_sections outside managed_block
reconcile_managed_block current desired =
    let (prefix, suffix) = outside current in splice_sections prefix (managed_block desired) suffix

-- The workspace file as readNoFollow sees it: `unreadable` where Lstat or ReadFile fails.
pub data FileState : Type 0 where
  absent symlink irregular unreadable : FileState
  regular : Text → FileState

-- readNoFollow, none being its error
unfoldable pub read_no_follow : FileState → Option Text
read_no_follow absent = some []
read_no_follow symlink = some []
read_no_follow irregular = none
read_no_follow unreadable = none
read_no_follow (regular t) = some t

-- syncAgentsFile: whether it succeeds, and the file. `written` tells whether writeTempAndRename does.
unfoldable pub sync_agents_file : Text → Bool → Text → FileState → Bool × FileState
unfolding managed_block_body validate_rendered read_no_follow reconcile_managed_block
sync_agents_file persona written instructions f =
    let desired = managed_block_body persona (trim_space instructions) in
    elim (validate_rendered desired) [
      | some _ ↦ (true, f)
      | none ↦ elim (read_no_follow f) [
        | none ↦ (false, f)
        | some current ↦
            let target = reconcile_managed_block current desired in
            if text_eq target current
            then (true, f)
            else if written
            then (true, regular target)
            else (false, f)
      ]
    ]
