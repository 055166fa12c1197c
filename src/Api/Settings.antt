-- ===== src/Api/Settings.antt =====
-- The settings of a device: frontend/src/api/utils/clientId.ts, settingsHelper.ts and
-- frontend/src/hooks/useEffectiveSettings.ts.
pub mod Merging
use Prim.Native.String
use text.Mathlib.Text.{starts_with}
use cogni_cash.Base.{
  String, Bool, true, false, Option, none, some, List, [], ◌∷◌, map, if◌then◌else◌, truthy,
}
use cogni_cash.Base.Collections.{get, put}

-- `Record<string, string>`
abbrev pub Settings : Type 0
Settings = List (String × String)

-- The identifier of the device and what `localStorage` then holds; `fresh` is a new UUID.
unfoldable pub get_client_id : String → Option String → String × Option String
get_client_id fresh none = (fresh, some fresh)
get_client_id fresh (some id) = if truthy id then (id, some id) else (fresh, some fresh)

unfoldable pub client_prefix : String → String
client_prefix client_id = String.◌++◌ "client." (String.◌++◌ client_id ".")

unfoldable pub get_namespaced_key : String → String → Bool → String
unfolding client_prefix
get_namespaced_key client_id key is_device_specific =
    if is_device_specific then String.◌++◌ (client_prefix client_id) key else key

-- `key.replace(prefix, '')` of a key that starts with the prefix
abbrev pub strip : String → String → String
strip prefix key = String.slice key (String.len prefix) (String.len key)

abbrev pub value_or : Option String → String
value_or none = ""
value_or (some v) = v

-- The loop over the keys.
unfoldable pub merge_from : String → Settings → List String → Settings → Settings
merge_from prefix raw [] merged = merged
merge_from prefix raw (key ∷ keys) merged = merge_from prefix raw keys (
    if starts_with key prefix
    then put (strip prefix key) (value_or (get raw key)) merged
    else merged)

abbrev pub keys : Settings → List String
keys = map (λ (e : String × String). e.0)

unfoldable pub merge_effective_settings : String → Settings → Settings
merge_effective_settings client_id raw = merge_from (client_prefix client_id) raw (keys raw) raw

-- The settings that a page sees: none while they are being fetched.
unfoldable pub use_effective_settings : String → Option Settings → Option Settings
use_effective_settings client_id none = none
use_effective_settings client_id (some raw) = some (merge_effective_settings client_id raw)
