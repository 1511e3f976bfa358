-- ===== src/Grants.antt =====
-- internal/grants/grants.go: the rules a user has approved for good, in one ConfigMap per user.
-- encoding/json enters as `Codec`; the ConfigMap's Data is `Table Text`.
pub mod Eviction
pub mod Deleting
pub mod Listing
pub mod Store
pub mod Samples
use cubepilot.Prelude.{
  ℕ, zero, suc, ◌+◌, ◌*◌, ◌-◌, ◌≡◌, ◌≢◌, ◌⊎◌, inl, inr, Bool, true, false, ◌&&◌, ◌||◌, List, [],
  ◌∷◌, ◌++◌, map, Option, none, some, Text, utf8, is_empty, ltb, leb, length, take, Table, lookup,
  insert, delete, if◌then◌else◌, ◌==◌,
}
use cubepilot.Prelude.Sorting.{sort, text_lt}
use cubepilot.Allowlist.{AllowlistRule, rule_key}
use cubepilot.Names.{Host, hex}

-- MaxGrants, maxCommandBytes, maxRuleBytes, maxDataBytes
abbrev pub max_grants : ℕ
max_grants = 1000

abbrev pub max_command_bytes : ℕ
max_command_bytes = 512

abbrev pub max_rule_bytes : ℕ
max_rule_bytes = 4096

abbrev pub max_data_bytes : ℕ
max_data_bytes = 512 * 1024

-- math.MaxInt of a 64-bit int
abbrev pub max_int : ℕ
max_int = 0x7fff_ffff_ffff_ffff

-- Record. An instant in time is a number.
pub record GrantRecord : Type 0 where
  pub pattern : Text
  pub arg_pattern : Text
  pub command : Text
  pub created_at : ℕ

-- Record.Rule
abbrev pub rule : GrantRecord → AllowlistRule
rule r = record { pattern = r.pattern; arg_pattern = r.arg_pattern }

-- json.Marshal and json.Unmarshal of a record, and the size of a marshalled Data map. Unmarshal reads back what Marshal wrote; a text that is not
-- UTF-8 comes back with replacement characters, the instant in any case unchanged.
pub record Codec : Type 1 where
  pub encode : GrantRecord → Text
  pub decode : Text → Option GrantRecord
  pub marshalled_size : Table Text → Option ℕ
  pub IsUtf8 : Text → Type 0
  pub decode-encode :
      (r : GrantRecord)
      → (r' : GrantRecord) × (decode (encode r) ≡ some r')
        × (r'.created_at ≡ r.created_at)
        × (IsUtf8 r.pattern → r'.pattern ≡ r.pattern)
        × (IsUtf8 r.arg_pattern → r'.arg_pattern ≡ r.arg_pattern)

-- truncate
unfoldable pub truncate : Text → ℕ → Text
truncate s n = if leb (length s) n then s else take n s ++ utf8 "..."

-- The comparison that List sorts by.
unfoldable pub record_less : GrantRecord → GrantRecord → Bool
record_less a b =
    if a.created_at == b.created_at
    then text_lt a.pattern b.pattern
    else ltb a.created_at b.created_at

-- The struct `keyed` of evict.
pub record Keyed : Type 0 where
  pub key : Text
  pub at : ℕ

abbrev pub keyed_less : Keyed → Keyed → Bool
keyed_less a b = ltb a.at b.at

-- Key
unfoldable pub key : Host → AllowlistRule → Text
key h r = hex (take 16 (h.sha256 (rule_key r)))

module _ (c : Codec) where
  -- The loop of List over Data: values that do not decode, or name no command, are skipped.
  unfoldable pub decoded : Table Text → List GrantRecord
  decoded [] = []
  decoded ((k, raw) ∷ m) =
      let rest = decoded m in
      elim (c.decode raw) [ none ↦ rest | some r ↦ if is_empty r.pattern then rest else r ∷ rest ]

  -- List, once the ConfigMap is read.
  unfoldable pub list : Table Text → List GrantRecord
  list m = sort record_less (decoded m)

  -- dataSize
  unfoldable pub data_size : Table Text → ℕ
  data_size m = elim (c.marshalled_size m) [ none ↦ max_int | some n ↦ n ]

  -- evict: the first loop, which deletes what does not decode ...
  unfoldable pub decodable : Table Text → Table Text
  decodable [] = []
  decodable ((k, raw) ∷ m) =
      let rest = decodable m in elim (c.decode raw) [ none ↦ rest | some r ↦ (k, raw) ∷ rest ]

  -- ... and collects the keys of the others with their instants.
  unfoldable pub keyed : Table Text → List Keyed
  keyed [] = []
  keyed ((k, raw) ∷ m) =
      let rest = keyed m in
      elim (c.decode raw) [ none ↦ rest | some r ↦ record { key = k; at = r.created_at } ∷ rest ]

  abbrev pub over : ℕ → ℕ → Table Text → Bool
  over max budget m = ltb max (length m) || ltb budget (data_size m)

  -- The last loop of evict, over the entries from the oldest on.
  unfoldable pub drop_oldest : ℕ → ℕ → List Keyed → Table Text → Table Text
  drop_oldest max budget [] m = m
  drop_oldest max budget (e ∷ es) m =
      let rest = drop_oldest max budget es (delete e.key m) in if over max budget m then rest else m

  -- evict: the table afterwards, and whether it fits.
  unfoldable pub evict : ℕ → ℕ → Table Text → Table Text × Bool
  evict max budget m =
      let m' = drop_oldest max budget (sort keyed_less (keyed m)) (decodable m) in
      (m', leb (length m') max && leb (data_size m') budget)
