-- ===== src/Grants/Samples.antt =====
-- A codec and an API server with which the grants store runs, tests, and the theorems there.
use cubepilot.Prelude.{
  ℕ, ◌+◌, ◌*◌, ◌≤◌, ◌≡◌, refl, sym, ap, true, [], ◌∷◌, ◌++◌, map, Option, none, some, arith, Text,
  utf8, text_eq, text_eq_refl, text_eq_cases, inl, inr, ◌∙◌, length, take, drop, Table, lookup,
  delete, contains, Distinct, if◌then◌else◌,
}
use cubepilot.Prelude.Sorting.{sort}
use cubepilot.Names.Samples.{plain}
use cubepilot.Allowlist.{AllowlistRule}
use cubepilot.Allowlist.Effective.{distinct_keys, distinct_keys_sound}
use cubepilot.Grants.{
  GrantRecord, Codec, key, record_less, decoded, list, data_size, evict, decodable, keyed,
  drop_oldest,
}
use cubepilot.Grants.Eviction.{evict-fits, evict-oldest}
use cubepilot.Grants.Store.{
  ConfigMap, Cluster, done, Result, ok, err, not_found, store_name, add, remove,
}
use cubepilot.Grants.Store.Linear.{IsLinear, table}
use cubepilot.Grants.Store.Adding.{add-Sound, Sound}
use cubepilot.Grants.Store.Removing.{remove-gone}

-- A record as a run of numbers, each text behind its length.
abbrev write : GrantRecord → Text
write r =
    r.created_at
    ∷ length r.pattern
    ∷ (r.pattern ++ length r.arg_pattern ∷ (r.arg_pattern ++ r.command))

abbrev read_rest : ℕ → Text → Text → Option GrantRecord
read_rest t p [] = none
read_rest t p (n ∷ s) =
    some (record { pattern = p; arg_pattern = take n s; command = drop n s; created_at = t })

abbrev read : Text → Option GrantRecord
read [] = none
read (t ∷ []) = none
read (t ∷ n ∷ s) = read_rest t (take n s) (drop n s)

take-length-append : (a b : Text) → take (length a) (a ++ b) ≡ a
take-length-append [] b = refl
take-length-append (x ∷ a) b = ap (λ z. x ∷ z) (take-length-append a b)

drop-length-append : (a b : Text) → drop (length a) (a ++ b) ≡ b
drop-length-append [] b = refl
drop-length-append (x ∷ a) b = drop-length-append a b

pub read-write : (r : GrantRecord) → read (write r) ≡ some r
read-write r = rw (
  take-length-append r.pattern (length r.arg_pattern ∷ (r.arg_pattern ++ r.command)),
  drop-length-append r.pattern (length r.arg_pattern ∷ (r.arg_pattern ++ r.command)),
  take-length-append r.arg_pattern r.command,
  drop-length-append r.arg_pattern r.command,
)

abbrev pub numbers : Codec
numbers = record {
  encode = write;
  decode = read;
  marshalled_size = λ m. some (2 + 100 * length m);
  IsUtf8 = λ s. Unit;
  decode-encode = λ r. (r, read-write r, refl, (λ _. refl), λ _. refl);
}

-- A server that holds one ConfigMap, and a client alone with it.
abbrev Server : Type 0
Server = Option (Text × Table Text)

abbrev as_map : Text → Table Text → ConfigMap
as_map n d = record {
  name = n;
  version = 1;
  managed_by = [];
  owners = [];
  nil_or_data = elim d [ [] ↦ none | e ∷ es ↦ some (e ∷ es) ];
}

get_server : Text → Server → Result ConfigMap × Server
get_server n none = (err not_found, none)
get_server n (some (m, d)) =
    if text_eq m n then (ok (as_map m d), some (m, d)) else (err not_found, some (m, d))

abbrev data_of : ConfigMap → Table Text
data_of cm = elim cm.nil_or_data [ none ↦ [] | some d ↦ d ]

abbrev put_server : ConfigMap → Server
put_server cm = some (cm.name, data_of cm)

abbrev held : Server → Text → Table Text
held none n = []
held (some (m, d)) n = if text_eq m n then d else []

abbrev server : Cluster Server
server = record {
  get_map = get_server;
  get_instance = λ n w. (err not_found, w);
  create_map = λ cm w. (ok (as_map cm.name (data_of cm)), put_server cm);
  update_map = λ cm w. (none, put_server cm);
  retry_on_conflict = λ f w. f w;
}

table-as_map : (n : Text) (d : Table Text) → table (as_map n d) ≡ d
table-as_map n [] = refl
table-as_map n (e ∷ es) = refl

held_self : (n : Text) (d : Table Text) → held (some (n, d)) n ≡ d
held_self n d = rw (text_eq_refl n)

ok-injective : (a b : ConfigMap) → ok a ≡ ok b → a ≡ b
ok-injective a b p = cc

got :
    (n : Text) (w : Server) (cm : ConfigMap)
    → (get_server n w).0 ≡ ok cm
    → (cm.name ≡ n) × (table cm ≡ held (get_server n w).1 n)
unfolding get_server
got n none cm h = cc
got n (some (m, d)) cm h = elim (text_eq_cases m n) [
  | inr (e, f) ↦ let w : err not_found ≡ ok cm = rw f at h in cc
  | inl (e, t) ↦
      let s : as_map m d ≡ cm = ok-injective (as_map m d) cm (rw t at h) in
      rw t (
        ap (λ (x : ConfigMap). x.name) (sym s) ∙ e,
        ap table (sym s) ∙ table-as_map m d ∙ sym (rw t refl),
      )
]

missing :
    (n : Text) (w : Server) → (get_server n w).0 ≡ err not_found → held (get_server n w).1 n ≡ []
unfolding get_server
missing n none h = refl
missing n (some (m, d)) h = elim (text_eq_cases m n) [
  | inr (e, f) ↦ rw f (rw f refl)
  | inl (e, t) ↦ let w : ok (as_map m d) ≡ err not_found = rw t at h in cc
]

created :
    (cm cm' : ConfigMap)
    → as_map cm.name (data_of cm) ≡ cm'
    → (cm'.name ≡ cm.name) × (table cm' ≡ held (put_server cm) cm.name)
created cm cm' s = (
  ap (λ (x : ConfigMap). x.name) (sym s),
  ap table (sym s) ∙ table-as_map cm.name (data_of cm) ∙ sym (held_self cm.name (data_of cm)),
)

server-IsLinear : IsLinear server
server-IsLinear = record {
  stored = held;
  got = got;
  missing = missing;
  created = λ cm w cm' h. created cm cm' (ok-injective (as_map cm.name (data_of cm)) cm' h);
  updated = λ cm w h. held_self cm.name (data_of cm);
  last_attempt = λ f w. (w, refl);
}

abbrev grant : Text → ℕ → GrantRecord
grant p t = record { pattern = p; arg_pattern = []; command = []; created_at = t }

-- Three grants, the second of them the oldest.
abbrev pub stored_grants : Table Text
stored_grants =
    (utf8 "k1", write (grant (utf8 "ls") 30))
    ∷ (utf8 "k2", write (grant (utf8 "cat") 10))
    ∷ (utf8 "k3", write (grant (utf8 "jq") 20))
    ∷ []

keys_differ : Distinct (map (λ (x : Text × Text). x.0) stored_grants)
keys_differ =
    distinct_keys_sound (map (λ (x : Text × Text). x.0) stored_grants)
      (unfold distinct_keys contains text_eq in refl)

list_runs : map (λ (r : GrantRecord). r.created_at) (list numbers stored_grants) ≡ 10 ∷ 20 ∷ 30 ∷ []
unfolding list decoded record_less sort
list_runs = refl

evict-fits_example :
    ((evict numbers 2 1000 stored_grants).1 ≡ true)
    × (length (evict numbers 2 1000 stored_grants).0 ≤ 2)
    × (data_size numbers (evict numbers 2 1000 stored_grants).0 ≤ 1000)
evict-fits_example = evict-fits numbers 2 1000 stored_grants (unfold data_size in omega arith)

-- With room for two, the oldest goes.
evict_runs :
    map (λ (x : Text × Text). x.0) (evict numbers 2 1000 stored_grants).0
    ≡ utf8 "k1" ∷ utf8 "k3" ∷ []
unfolding evict decodable keyed drop_oldest data_size delete text_eq sort
evict_runs = refl

evicted : lookup (utf8 "k2") (evict numbers 2 1000 stored_grants).0 ≡ none
unfolding evict decodable keyed drop_oldest data_size delete text_eq lookup sort
evicted = refl

kept :
    lookup (utf8 "k3") (evict numbers 2 1000 stored_grants).0 ≡ some (write (grant (utf8 "jq") 20))
unfolding evict decodable keyed drop_oldest data_size delete text_eq lookup sort
kept = refl

present : lookup (utf8 "k2") stored_grants ≡ some (write (grant (utf8 "cat") 10))
unfolding lookup text_eq
present = refl

evict-oldest_example : 10 ≤ 20
evict-oldest_example =
    evict-oldest numbers 2 1000 stored_grants keys_differ (utf8 "k2")
      (write (grant (utf8 "cat") 10)) (grant (utf8 "cat") 10) (utf8 "k3")
      (write (grant (utf8 "jq") 20)) (grant (utf8 "jq") 20) present refl evicted kept refl

abbrev helm : AllowlistRule
helm = record { pattern = utf8 "helm"; arg_pattern = [] }

add-Sound_example :
    Sound plain numbers server server-IsLinear 10 1000
      (key plain helm)
      (store_name plain (utf8 "bob"))
      (add plain numbers server 10 1000 (utf8 "bob") helm (utf8 "helm list") 5 none)
add-Sound_example =
    add-Sound plain numbers server server-IsLinear 10 1000 (utf8 "bob") helm (utf8 "helm list") 5
      none refl

remove_runs : (remove plain numbers server (utf8 "bob") helm none).0 ≡ done
unfolding remove get_server
remove_runs = refl

remove-gone_example :
    lookup (key plain helm) (
      server-IsLinear.stored
        (remove plain numbers server (utf8 "bob") helm none).1
        (store_name plain (utf8 "bob")))
    ≡ none
remove-gone_example =
    remove-gone plain numbers server server-IsLinear (utf8 "bob") helm none refl remove_runs
