-- ===== src/SettingsPage/Steps.antt =====
-- What happens to the page of settings, as a step relation.
use cogni_cash.Base.{
  String, ◌≡◌, refl, true, false, ◌&&◌, Option, List, truthy, Bool-cases, inl, inr,
}
use cogni_cash.Base.Collections.{Distinct, put-Distinct}
use cogni_cash.Api.Settings.{Settings, keys}
use cogni_cash.Accounts.{Reply, is_fulfilled}
use cogni_cash.LlmProfiles.{LlmProfile}
use cogni_cash.SettingsPage.{
  Page, fetched, handle_setting_change, handle_profiles_change, handle_settings_submit,
  settings_on_success, settings_on_error, hide_success, same_text, llm_profiles,
}

module _ (parse : String → Option (List LlmProfile)) (stringify : List LlmProfile → String) where
  -- One event: settings are fetched, a field or the profiles are changed, the button that saves is
  -- clicked, the request ends, the time of the message is over.
  pub data Step : Page → Page → Type 0 where
    fetch : (s : Page) (settings : Option Settings) → Step s (fetched parse settings s)
    change : (s : Page) (k v : String) → Step s (handle_setting_change k v s)
    profile : (s : Page) (ps : List LlmProfile) → Step s (handle_profiles_change stringify ps s)
    submit : (s : Page) → Step s (handle_settings_submit s).1
    success : (s : Page) → s.is_pending ≡ true → Step s (settings_on_success s)
    failure :
        (s : Page) (message : String) (reply : Reply)
        → s.is_pending ≡ true
        → is_fulfilled reply ≡ false
        → Step s (settings_on_error message reply s)
    hide : (s : Page) → Step s (hide_success s)

  pub data Reach (s : Page) : Page → Type 0 where
    here : Reach s s
    next : {t u : Page} → Reach s t → Step t u → Reach s u

  -- No setting is changed twice, and a success is not shown beside an error.
  abbrev pub IsSound : Page → Type 0
  IsSound s =
      Distinct (keys s.settings_changes) × ((s.settings_success && truthy s.settings_error) ≡ false)

  fetched-IsSound :
      (s : Page) (settings : Option Settings) → IsSound s → IsSound (fetched parse settings s)
  unfolding fetched
  fetched-IsSound s settings v =
      elim (Bool-cases (same_text (llm_profiles settings) (llm_profiles s.current_settings))) [
        | inl e ↦ rw e v
        | inr e ↦ rw e v
      ]

  handle_settings_submit-IsSound : (s : Page) → IsSound s → IsSound (handle_settings_submit s).1
  unfolding handle_settings_submit
  handle_settings_submit-IsSound s v = elim (Bool-cases s.is_pending) [
    | inl e ↦ rw e v
    | inr e ↦ rw e v
  ]

  Step-IsSound : {s t : Page} → Step s t → IsSound s → IsSound t
  unfolding handle_setting_change handle_profiles_change settings_on_success settings_on_error
      hide_success
  Step-IsSound (fetch s settings) v = fetched-IsSound s settings v
  Step-IsSound (change s k v) (d, a) = (put-Distinct k v s.settings_changes d, a)
  Step-IsSound (profile s ps) (d, a) =
      (put-Distinct "llm_profiles" (stringify ps) s.settings_changes d, a)
  Step-IsSound (submit s) v = handle_settings_submit-IsSound s v
  Step-IsSound (success s p) v = (tt, refl)
  Step-IsSound (failure s message reply p e) (d, a) = (d, refl)
  Step-IsSound (hide s) (d, a) = (d, refl)

  -- However the page of settings is used from a page where this holds, no setting is named twice
  -- in the changes kept for the next save, and the message of a success is never shown beside that
  -- of an error.
  pub Reach-IsSound : {s t : Page} → Reach s t → IsSound s → IsSound t
  Reach-IsSound here v = v
  Reach-IsSound (next r step) v = Step-IsSound step (Reach-IsSound r v)
