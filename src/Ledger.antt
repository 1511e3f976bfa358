-- ===== src/Ledger.antt =====
-- internal/store/store.go: the audit ledger, one bounded file per user. A disk is a table of files with
-- what the JSON in them decodes to.
pub mod Reading
mod Samples
use cubepilot.Prelude.{
  ℕ, ◌+◌, ◌-◌, ◌≡◌, Bool, true, false, not, ◌&&◌, ◌||◌, List, [], ◌∷◌, ◌++◌, map, Option, none,
  some, Text, utf8, is_empty, text_eq, leb, ltb, length, take, drop, filter, Table, lookup, insert,
  if◌then◌else◌, ◌==◌,
}
use cubepilot.Prelude.Sorting.{sort}

-- maxAudit
abbrev pub max_audit : ℕ
max_audit = 1000

-- AuditEntry
pub record AuditEntry : Type 0 where
  pub id : Text
  pub ts : ℕ
  pub user : Text
  pub session_id : Text
  pub tool : Text
  pub command : Text
  pub level : Text
  pub status : Text
  pub detail : Text
  pub approval_id : Text

-- What a file holds: a file that cannot be read or decoded is `broken`.
pub data Content : Type 0 where
  broken : Content
  entries : List AuditEntry → Content

abbrev pub Disk : Type 0
Disk = Table Content

-- Store.file: a file that does not exist leaves the empty list.
unfoldable pub file : Text → Disk → Option (List AuditEntry)
file name d = elim (lookup name d) [
  | none ↦ some []
  | some c ↦ elim c [ broken ↦ none | entries es ↦ some es ]
]

-- The characters that auditFile keeps.
unfoldable pub is_safe_char : ℕ → Bool
is_safe_char c =
    leb b'a' c && leb c b'z'
    || leb b'A' c && leb c b'Z'
    || leb b'0' c && leb c b'9'
    || c == b'.'
    || c == b'-'
    || c == b'_'

-- The mapping of auditFile.
unfoldable pub safe_chars : List ℕ → Text
safe_chars [] = []
safe_chars (c ∷ cs) = (if is_safe_char c then c else b'_') ∷ safe_chars cs

-- The end of a list: its last `n` members.
abbrev pub last_entries : ℕ → List AuditEntry → List AuditEntry
last_entries n es = if ltb n (length es) then drop (length es - n) es else es

-- The order of ListAudit: newest first.
abbrev pub newer : AuditEntry → AuditEntry → Bool
newer a b = ltb b.ts a.ts

-- `runes` are the code points that a range over a Go string gives.
module _ (runes : Text → List ℕ) where
  -- auditFile
  unfoldable pub audit_file : Text → Text
  unfolding safe_chars
  audit_file user =
      let safe = safe_chars (runes user) in
      utf8 "audit-" ++ (if is_empty safe then utf8 "default" else safe) ++ utf8 ".json"

  -- AddAudit: whether it succeeds, and the disk. `fresh` is the id drawn, `saved` tells whether the
  -- file could be written and renamed, and `stored` is what the JSON of an entry decodes to.
  unfoldable pub add_audit :
      (AuditEntry → AuditEntry) → Text → Bool → AuditEntry → Disk → Bool × Disk
  unfolding file
  add_audit stored fresh saved e d =
      let name = audit_file e.user in
      elim (file name d) [
        | none ↦ (false, d)
        | some es ↦
            if saved
            then (
              true,
              insert name
                  (entries
                    (map stored (last_entries max_audit (es ++ record e { id = fresh } ∷ []))))
                  d,
            )
            else (false, d)
      ]

  -- ListAudit; a limit of 0 stands for one that is not positive.
  unfoldable pub list_audit : Text → ℕ → Disk → Option (List AuditEntry)
  unfolding file
  list_audit user limit d = elim (file (audit_file user) d) [
    | none ↦ none
    | some es ↦
        let owned = sort newer (filter (λ (e : AuditEntry). text_eq e.user user) es) in
        some (if ltb 0 limit && ltb limit (length owned) then take limit owned else owned)
  ]
