-- ===== src/Names.antt =====
-- internal/k8s/client.go and internal/k8s/userkubeconfig.go: the names of the objects that the
-- platform generates. Unicode lower-casing and SHA-256 enter as `Host`.
pub mod Segments
pub mod Bounds
pub mod Samples
use cubepilot.Prelude.{
  ℕ, zero, suc, ◌+◌, ◌-◌, ◌/◌, ◌%◌, ◌≡◌, Bool, true, false, not, ◌&&◌, ◌||◌, List, [], ◌∷◌, ◌++◌,
  Text, utf8, is_empty, leb, length, take, if◌then◌else◌, ◌==◌,
}
use mathlib.Core.List.{reverse}

-- strings.ToLower and sha256.Sum256
pub record Host : Type 0 where
  pub to_lower : Text → Text
  pub sha256 : Text → Text
  pub length-sha256 : (s : Text) → length (sha256 s) ≡ 32

abbrev hex_digit : ℕ → ℕ
hex_digit n = if leb n 9 then b'0' + n else b'a' + n - 10

-- hex.EncodeToString, and `%x` of bytes
unfoldable pub hex : Text → Text
hex [] = []
hex (c ∷ s) = hex_digit (c / 16) ∷ hex_digit (c % 16) ∷ hex s

-- The class [a-z0-9-], whose complement is invalidName.
unfoldable pub is_name_char : ℕ → Bool
is_name_char c = leb b'a' c && leb c b'z' || leb b'0' c && leb c b'9' || c == b'-'

-- invalidName.ReplaceAllString(s, "-"): each run of other bytes becomes one dash. `inside` tells
-- whether the byte before was replaced.
unfoldable pub replace_invalid : Bool → Text → Text
replace_invalid inside [] = []
replace_invalid inside (c ∷ s) =
    let rest = replace_invalid (not (is_name_char c)) s in
    if is_name_char c then c ∷ rest else if inside then rest else b'-' ∷ rest

-- strings.TrimLeft(s, "-")
unfoldable pub trim_left_dashes : Text → Text
trim_left_dashes [] = []
trim_left_dashes (c ∷ s) = let rest = trim_left_dashes s in if c == b'-' then rest else c ∷ s

-- strings.TrimRight(s, "-")
unfoldable pub trim_right_dashes : Text → Text
trim_right_dashes [] = []
trim_right_dashes (c ∷ s) =
    let rest = trim_right_dashes s in if is_empty rest && c == b'-' then [] else c ∷ rest

-- strings.Trim(s, "-")
unfoldable pub trim_dashes : Text → Text
unfolding trim_left_dashes trim_right_dashes
trim_dashes s = trim_right_dashes (trim_left_dashes s)

abbrev pub max_resource_name_len : ℕ
max_resource_name_len = 253

abbrev pub max_service_name_len : ℕ
max_service_name_len = 63

abbrev pub generated_name_hash_len : ℕ
generated_name_hash_len = 10

abbrev env_char : ℕ → ℕ
env_char c =
    if leb b'a' c && leb c b'z'
    then c - b'a' + b'A'
    else if leb b'A' c && leb c b'Z' || leb b'0' c && leb c b'9'
    then c
    else b'_'

unfoldable pub env_chars : Text → Text
env_chars [] = []
env_chars (c ∷ s) = env_char c ∷ env_chars s

module _ (h : Host) where
  -- Sanitize
  unfoldable pub sanitize : Text → Text
  unfolding replace_invalid trim_dashes
  sanitize s =
      let t = trim_dashes (replace_invalid false (h.to_lower s)) in
      if is_empty t then utf8 "user" else t

  -- ResourceName
  unfoldable pub resource_name : Text → Text → Text
  resource_name prefix user = prefix ++ b'-' ∷ sanitize user

  -- generatedNameWithin
  unfoldable pub generated_name_within : Text → Text → ℕ → Text
  generated_name_within prefix name max =
      let generated = resource_name prefix name in
      let digest = hex (take (generated_name_hash_len / 2) (h.sha256 generated)) in
      if leb (length generated) max
      then generated
      else trim_right_dashes (take (max - length digest - 1) generated) ++ b'-' ∷ digest

  -- GeneratedName
  unfoldable pub generated_name : Text → Text → Text
  generated_name prefix name = generated_name_within prefix name max_resource_name_len

  -- GeneratedServiceName
  unfoldable pub generated_service_name : Text → Text → Text
  generated_service_name prefix name = generated_name_within prefix name max_service_name_len

  -- InstanceName
  unfoldable pub instance_name : Text → Text → Text
  instance_name user agent = sanitize user ++ b'-' ∷ sanitize agent

  -- EnvNameForProvider
  unfoldable pub env_name_for_provider : Text → Text
  env_name_for_provider name =
      utf8 "CUBEPILOT_LLM_" ++ (env_chars name ++ b'_' ∷ hex (take 2 (h.sha256 name)))

  -- UserIdentityHash
  unfoldable pub user_identity_hash : Text → Text
  user_identity_hash user = take 32 (hex (h.sha256 user))

  -- UserServiceAccountName
  unfoldable pub user_service_account_name : Text → Text
  user_service_account_name user = utf8 "user-" ++ (sanitize user ++ b'-' ∷ user_identity_hash user)

  -- UserKubeconfigSecretFor
  unfoldable pub user_kubeconfig_secret_for : Text → Text
  user_kubeconfig_secret_for user =
      sanitize user ++ (utf8 "-kubeconfig-" ++ user_identity_hash user)
