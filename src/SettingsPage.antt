-- ===== src/SettingsPage.antt =====
-- frontend/src/pages/SettingsPage.tsx: the form of the settings, which keeps what was changed apart
-- from what the server holds, and the list of LLM profiles that it edits.
pub mod Forms
pub mod Saving
pub mod Steps
mod Tests
use cogni_cash.Base.{
  String, ◌==◌, Bool, true, false, Option, none, some, List, [], ◌∷◌, map, if◌then◌else◌, truthy,
}
use cogni_cash.Base.Collections.{get, put}
use cogni_cash.Api.Request.{Value, text}
use cogni_cash.Api.Services.Others.{SettingsCall, update_settings}
use cogni_cash.Api.Settings.{Settings}
use cogni_cash.Accounts.{Reply, message_or}
use cogni_cash.LlmProfiles.{LlmProfile}

-- The settings of the server, if they are there, with the page's own state; `is_pending` is that of
-- the request that saves.
pub record Page : Type 0 where
  pub current_settings : Option Settings
  pub settings_changes : Settings
  pub profiles : List LlmProfile
  pub settings_success : Bool
  pub settings_error : String
  pub is_pending : Bool

-- `{ ...base, ...changes }`
unfoldable pub spread : Settings → Settings → Settings
spread base [] = base
spread base ((k, v) ∷ changes) = spread (put k v base) changes

-- `{ ...currentSettings }`
abbrev pub own : Option Settings → Settings
own none = []
own (some settings) = settings

unfoldable pub settings_params : Page → Settings
settings_params s = spread (own s.current_settings) s.settings_changes

abbrev pub llm_profiles : Option Settings → Option String
llm_profiles none = none
llm_profiles (some settings) = get settings "llm_profiles"

-- The test of the effect's dependency.
abbrev pub same_text : Option String → Option String → Bool
same_text none none = true
same_text none (some t) = false
same_text (some s) none = false
same_text (some s) (some t) = s == t

abbrev pub or_empty : Option (List LlmProfile) → List LlmProfile
or_empty none = []
or_empty (some ps) = ps

abbrev pub initial_page : Page
initial_page = record {
  current_settings = none;
  settings_changes = [];
  profiles = [];
  settings_success = false;
  settings_error = "";
  is_pending = false;
}

-- `parse` is what `JSON.parse` makes of a text, where `none` is an exception, and `stringify` is
-- `JSON.stringify`.
module _ (parse : String → Option (List LlmProfile)) where
  unfoldable pub parsed_profiles : Option String → List LlmProfile
  parsed_profiles none = []
  parsed_profiles (some json) = if truthy json then or_empty (parse json) else []

  -- New settings of the server, and the effect if their profiles are others.
  unfoldable pub fetched : Option Settings → Page → Page
  fetched settings s =
      let after = record s { current_settings = settings } in
      if same_text (llm_profiles settings) (llm_profiles s.current_settings)
      then after
      else record after { profiles = parsed_profiles (llm_profiles settings) }

unfoldable pub handle_setting_change : String → String → Page → Page
handle_setting_change key value s = record s { settings_changes = put key value s.settings_changes }

unfoldable pub handle_profiles_change : (List LlmProfile → String) → List LlmProfile → Page → Page
handle_profiles_change stringify new_profiles s = record s {
  profiles = new_profiles;
  settings_changes = put "llm_profiles" (stringify new_profiles) s.settings_changes;
}

abbrev pub fields : Settings → List (String × Value)
fields = map (λ (e : String × String). (e.0, text e.1))

-- A click on the button that saves, which is disabled while the request runs.
unfoldable pub handle_settings_submit : Page → Option SettingsCall × Page
handle_settings_submit s =
    if s.is_pending
    then (none, s)
    else (some (update_settings (fields (settings_params s))), record s { is_pending = true })

unfoldable pub settings_on_success : Page → Page
settings_on_success s = record s {
  settings_success = true;
  settings_error = "";
  settings_changes = [];
  is_pending = false;
}

-- With the translated message of a failure.
unfoldable pub settings_on_error : String → Reply → Page → Page
settings_on_error error_save reply s = record s {
  settings_error = message_or error_save reply;
  settings_success = false;
  is_pending = false;
}

-- Three seconds after a success.
unfoldable pub hide_success : Page → Page
hide_success s = record s { settings_success = false }

-- What the form has for a setting and what it shows without one.
unfoldable pub shown_value : String → String → Page → String
shown_value key default s = elim (get (settings_params s) key) [
  | none ↦ default
  | some value ↦ if truthy value then value else default
]

-- A box that is checked if the setting is the text of true.
unfoldable pub is_checked : String → Page → Bool
is_checked key s = elim (get (settings_params s) key) [
  | none ↦ false
  | some value ↦ value == "true"
]

unfoldable pub check : String → Bool → Page → Page
unfolding handle_setting_change
check key checked s = handle_setting_change key (if checked then "true" else "false") s
