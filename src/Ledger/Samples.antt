-- ===== src/Ledger/Samples.antt =====
-- Two users whose names share a file, and the theorems at them.
use cubepilot.Prelude.{ℕ, ◌≡◌, ◌≢◌, refl, true, List, [], ◌∷◌, some, Text, utf8, lookup, text_eq}
use cubepilot.Prelude.Sorting.{sort}
use cubepilot.Ledger.{
  AuditEntry, entries, Disk, file, audit_file, add_audit, list_audit, safe_chars, is_safe_char,
}
use cubepilot.Ledger.Reading.{IsAppended, ListSpec, list_audit-ListSpec, add_audit_lem}

-- ASCII texts, whose code points are their bytes.
abbrev ascii : Text → List ℕ
ascii s = s

abbrev audit : Text → Text → ℕ → AuditEntry
audit i u t = record {
  id = i;
  ts = t;
  user = u;
  session_id = utf8 "s";
  tool = utf8 "exec";
  command = utf8 "ls";
  level = utf8 "L0";
  status = utf8 "executed";
  detail = [];
  approval_id = [];
}

abbrev stored : List AuditEntry
stored =
    audit (utf8 "a-1") (utf8 "a/b") 5
    ∷ audit (utf8 "a-2") (utf8 "a_b") 6
    ∷ audit (utf8 "a-3") (utf8 "a/b") 7
    ∷ []

abbrev disk : Disk
disk = (utf8 "audit-a_b.json", entries stored) ∷ []

abbrev listed : List AuditEntry
listed = audit (utf8 "a-3") (utf8 "a/b") 7 ∷ audit (utf8 "a-1") (utf8 "a/b") 5 ∷ []

reads : file (audit_file ascii (utf8 "a/b")) disk ≡ some stored
unfolding file audit_file lookup text_eq safe_chars is_safe_char
reads = refl

lists : list_audit ascii (utf8 "a/b") 2 disk ≡ some listed
unfolding list_audit lookup text_eq sort audit_file file safe_chars is_safe_char
lists = refl

list_audit-ListSpec_example : ListSpec (utf8 "a/b") 2 stored listed
list_audit-ListSpec_example =
    list_audit-ListSpec ascii (utf8 "a/b") 2 disk stored listed reads lists

adds : (add_audit ascii (λ e. e) (utf8 "a-4") true (audit [] (utf8 "a/b") 9) disk).0 ≡ true
unfolding add_audit lookup text_eq audit_file file safe_chars is_safe_char
adds = refl

add_audit_lem_example :
    ((old : List AuditEntry) × (new : List AuditEntry) × (file (audit_file ascii (utf8 "a/b")) disk
        ≡ some old)
      × (file
            (audit_file ascii (utf8 "a/b"))
            (add_audit ascii (λ e. e) (utf8 "a-4") true (audit [] (utf8 "a/b") 9) disk).1
          ≡ some new)
      × IsAppended (λ e. e) old (audit (utf8 "a-4") (utf8 "a/b") 9) new)
    × ((name : Text)
        → name ≢ audit_file ascii (utf8 "a/b")
        → file name (add_audit ascii (λ e. e) (utf8 "a-4") true (audit [] (utf8 "a/b") 9) disk).1
          ≡ file name disk)
add_audit_lem_example =
    add_audit_lem ascii (λ e. e) (utf8 "a-4") true (audit [] (utf8 "a/b") 9) disk adds
