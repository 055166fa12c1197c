-- ===== src/SettingsPage/Tests.antt =====
-- The theorems on the page of settings at concrete pages.
use cogni_cash.Base.{
  String, ◌≡◌, refl, true, false, ◌&&◌, Option, none, some, List, [], ◌∷◌, if◌then◌else◌, truthy,
}
use cogni_cash.Base.Collections.{has, get, put, Distinct}
use cogni_cash.Api.Services.Others.{update_settings}
use cogni_cash.Api.Settings.{Settings, keys}
use cogni_cash.LlmProfiles.{LlmProfile}
use cogni_cash.SettingsPage.{
  Page, initial_page, spread, fields, settings_params, fetched, handle_setting_change,
  handle_profiles_change, handle_settings_submit, settings_on_success, llm_profiles, same_text,
  parsed_profiles,
}
use cogni_cash.SettingsPage.Saving.{
  edit_all, or_get, settings_params-saved, llm_profiles-handle_profiles_change,
}
use cogni_cash.SettingsPage.Steps.{here, next, submit, change, success, Reach-IsSound}

abbrev parse : String → Option (List LlmProfile)
parse json = if truthy json then some [] else none

abbrev stringify : List LlmProfile → String
stringify ps = "[]"

abbrev server : Settings
server = ("theme", "light") ∷ ("llm_profiles", "[1]") ∷ []

abbrev changed : Page
changed = record initial_page {
  current_settings = some server;
  settings_changes = ("theme", "dark") ∷ [];
}

abbrev typed : Settings
typed = ("import_dir", "/in") ∷ []

abbrev saved : Settings
saved = ("theme", "dark") ∷ ("llm_profiles", "[1]") ∷ []

settings_params-saved_example :
    let after = settings_on_success (edit_all typed (handle_settings_submit changed).1) in
    ((handle_settings_submit after).0 ≡ some (update_settings (fields server)))
    × (get (settings_params (fetched parse (some saved) after)) "theme"
        ≡ or_get (get changed.settings_changes "theme") (get server "theme"))
unfolding get handle_settings_submit settings_params spread put has
settings_params-saved_example =
    settings_params-saved parse changed typed saved (fields saved) "theme" refl (refl, tt) refl refl

llm_profiles-handle_profiles_change_example :
    let later =
      fetched parse (some saved) (edit_all typed (handle_profiles_change stringify [] changed)) in
    (get (settings_params later) "llm_profiles" ≡ some "[]")
    × (later.profiles ≡ (
        if same_text (llm_profiles (some saved)) (llm_profiles (some server))
        then []
        else parsed_profiles parse (llm_profiles (some saved))))
unfolding has
llm_profiles-handle_profiles_change_example =
    llm_profiles-handle_profiles_change parse stringify changed [] typed (some saved) (refl, tt)
      refl

abbrev submitted : Page
submitted = (handle_settings_submit (handle_setting_change "theme" "dark" initial_page)).1

pending : submitted.is_pending ≡ true
unfolding handle_settings_submit handle_setting_change
pending = refl

Reach-IsSound_example :
    Distinct (keys (settings_on_success submitted).settings_changes)
    × (((settings_on_success submitted).settings_success
          && truthy (settings_on_success submitted).settings_error)
        ≡ false)
Reach-IsSound_example =
    Reach-IsSound parse stringify {s = initial_page} {t = settings_on_success submitted}
      (next
        (next (next here (change initial_page "theme" "dark"))
          (submit (handle_setting_change "theme" "dark" initial_page)))
        (success submitted pending))
      (tt, refl)
