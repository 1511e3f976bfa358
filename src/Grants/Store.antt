-- ===== src/Grants/Store.antt =====
-- The operations of grants.Store over the Kubernetes API. The API server and the client's retry
-- helper enter as `Cluster`: each call takes the state of the world and returns the next one, in
-- which other clients may have acted too.
pub mod Linear
pub mod Adding
pub mod Removing
use cubepilot.Prelude.{
  ℕ, ◌+◌, ◌≡◌, Bool, true, false, List, [], ◌∷◌, Option, none, some, Text, utf8, is_empty, ltb, leb,
  length, Table, lookup, insert, delete, if◌then◌else◌,
}
use cubepilot.Names.{Host, resource_name, instance_name}
use cubepilot.Allowlist.{AllowlistRule}
use cubepilot.Grants.{
  GrantRecord, Codec, key, truncate, evict, list, max_rule_bytes, max_command_bytes, max_grants,
  max_data_bytes,
}

pub data ApiError : Type 0 where
  not_found conflict already_exists : ApiError
  other : Text → ApiError

pub data Result {ℓ} (A : Type ℓ) : Type ℓ where
  ok : A → Result A
  err : ApiError → Result A

-- metav1.OwnerReference, as far as the store sets it
pub record OwnerReference : Type 0 where
  pub owner_name : Text
  pub uid : Text

-- corev1.ConfigMap. The Data of an object that has none is a nil map.
pub record ConfigMap : Type 0 where
  pub name : Text
  pub version : ℕ
  pub managed_by : Text
  pub owners : List OwnerReference
  pub nil_or_data : Option (Table Text)

-- What a store operation ends with. `panic` is a write into a nil map.
pub data Outcome : Type 0 where
  done : Outcome
  api : ApiError → Outcome
  rule_too_large over_budget not_stored : Outcome
  panic : Outcome

pub record Cluster (W : Type 0) : Type 0 where
  pub get_map : Text → W → Result ConfigMap × W
  pub get_instance : Text → W → Result OwnerReference × W
  pub create_map : ConfigMap → W → Result ConfigMap × W
  pub update_map : ConfigMap → W → Option ApiError × W
  pub retry_on_conflict : (W → Outcome × W) → W → Outcome × W

-- v1alpha1.DefaultAgentName
unfoldable pub default_agent_name : Text
default_agent_name = utf8 "cubepilot"

-- Store.Name
unfoldable pub store_name : Host → Text → Text
store_name h user = resource_name h (utf8 "cubepilot-grants") user

-- The map that a write goes into: a nil map is replaced by an empty one.
abbrev pub with_data : ConfigMap → ConfigMap
with_data cm = elim cm.nil_or_data [ none ↦ record cm { nil_or_data = some [] } | some d ↦ cm ]

module _ {W : Type 0} (h : Host) (c : Codec) (k : Cluster W) where
  -- The re-read after a lost create race.
  reread : Text → W → Result ConfigMap × W
  reread n w =
      let (again, w1) = k.get_map n w in
      elim again [ ok cm ↦ (ok (with_data cm), w1) | err e ↦ (err e, w1) ]

  -- ensure, from the creation on.
  create : ConfigMap → W → Result ConfigMap × W
  create fresh w =
      let (made, w1) = k.create_map fresh w in
      elim made [
        | ok cm ↦ (ok (with_data cm), w1)
        | err already_exists ↦ reread fresh.name w1
        | err e ↦ (err e, w1)
      ]

  fresh_map : Text → List OwnerReference → ConfigMap
  fresh_map user refs = record {
    name = store_name h user;
    version = 0;
    managed_by = utf8 "cubepilot-grants";
    owners = refs;
    nil_or_data = some [];
  }

  -- ensure
  unfoldable pub ensure : Text → W → Result ConfigMap × W
  unfolding reread create fresh_map
  ensure user w =
      let (got, w1) = k.get_map (store_name h user) w in
      elim got [
        | ok cm ↦ (ok (with_data cm), w1)
        | err not_found ↦
            let (inst, w2) = k.get_instance (instance_name h user default_agent_name) w1 in
            elim inst [
              | ok ref ↦ create (fresh_map user (ref ∷ [])) w2
              | err not_found ↦ create (fresh_map user []) w2
              | err e ↦ (err e, w2)
            ]
        | err e ↦ (err e, w1)
      ]

  -- The part of Add's closure behind `ensure`.
  unfoldable pub store : ℕ → ℕ → Text → Text → ConfigMap → W → Outcome × W
  store max budget id raw cm w = elim cm.nil_or_data [
    | none ↦ (panic, w)
    | some d ↦ elim (lookup id d) [
      | some _ ↦ (done, w)
      | none ↦
          let (kept, fits) = evict c max budget (insert id raw d) in
          elim fits [
            | false ↦ (over_budget, w)
            | true ↦ elim (lookup id kept) [
              | none ↦ (not_stored, w)
              | some _ ↦
                  let (e, w1) = k.update_map (record cm { nil_or_data = some kept }) w in
                  elim e [ none ↦ (done, w1) | some x ↦ (api x, w1) ]
            ]
          ]
    ]
  ]

  unfoldable pub attempt_add : ℕ → ℕ → Text → Text → Text → W → Outcome × W
  unfolding ensure store
  attempt_add max budget user id raw w =
      let (got, w1) = ensure user w in
      elim got [ ok cm ↦ store max budget id raw cm w1 | err e ↦ (api e, w1) ]

  -- Add. `max` and `budget` are the store's fields.
  unfoldable pub add : ℕ → ℕ → Text → AllowlistRule → Text → ℕ → W → Outcome × W
  unfolding attempt_add
  add max budget user r command now w =
      if is_empty r.pattern
      then (done, w)
      else if ltb max_rule_bytes (length r.pattern + length r.arg_pattern)
      then (rule_too_large, w)
      else k.retry_on_conflict
          (attempt_add max budget user (key h r) (
            c.encode (record {
              pattern = r.pattern;
              arg_pattern = r.arg_pattern;
              command = truncate command max_command_bytes;
              created_at = now;
            })))
          w

  -- The part of Remove's closure behind the read.
  unfoldable pub erase : Text → ConfigMap → W → Outcome × W
  erase id cm w = elim cm.nil_or_data [
    | none ↦ (done, w)
    | some d ↦ elim (lookup id d) [
      | none ↦ (done, w)
      | some _ ↦
          let (e, w1) = k.update_map (record cm { nil_or_data = some (delete id d) }) w in
          elim e [ none ↦ (done, w1) | some x ↦ (api x, w1) ]
    ]
  ]

  unfoldable pub attempt_remove : Text → Text → W → Outcome × W
  unfolding erase
  attempt_remove user id w =
      let (got, w1) = k.get_map (store_name h user) w in
      elim got [ err not_found ↦ (done, w1) | err e ↦ (api e, w1) | ok cm ↦ erase id cm w1 ]

  -- Remove
  unfoldable pub remove : Text → AllowlistRule → W → Outcome × W
  unfolding attempt_remove
  remove user r w =
      if is_empty r.pattern
      then (done, w)
      else k.retry_on_conflict (attempt_remove user (key h r)) w

  -- List
  unfoldable pub list_grants : Text → W → Result (List GrantRecord) × W
  list_grants user w =
      let (got, w1) = k.get_map (store_name h user) w in
      elim got [
        | err not_found ↦ (ok [], w1)
        | err e ↦ (err e, w1)
        | ok cm ↦ elim cm.nil_or_data [ none ↦ (ok [], w1) | some d ↦ (ok (list c d), w1) ]
      ]
