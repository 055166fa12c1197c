-- ===== src/SettingsPage/Saving.antt =====
-- What saving the settings does to what the page shows and to what it sends next.
use cogni_cash.Base.{
  String, ◌==◌, ◌≡◌, refl, sym, ap, ◌∙◌, true, false, Option, none, some, List, [], ◌∷◌,
  if◌then◌else◌, arith, Bool-cases, inl, inr, eq_iff,
}
use cogni_cash.Base.Collections.{has, get, put, get-put, put-Distinct, get-absent, Distinct}
use mathlib.Core.Option
use cogni_cash.Api.Request.{Value, text}
use cogni_cash.Api.Services.Others.{update_settings}
use cogni_cash.Api.Settings.{Settings, keys}
use cogni_cash.LlmProfiles.{LlmProfile}
use cogni_cash.SettingsPage.{
  Page, spread, own, settings_params, llm_profiles, same_text, parsed_profiles, fetched,
  handle_setting_change, handle_profiles_change, fields, handle_settings_submit,
  settings_on_success,
}

-- Fields that the user fills in, one after the other.
unfoldable pub edit_all : Settings → Page → Page
unfolding handle_setting_change
edit_all [] s = s
edit_all ((k, v) ∷ edits) s = edit_all edits (handle_setting_change k v s)

abbrev pub or_get : Option String → Option String → Option String
or_get none o = o
or_get (some v) o = some v

get-spread :
    (base changes : Settings) (k : String)
    → Distinct (keys changes)
    → get (spread base changes) k ≡ or_get (get changes k) (get base k)
unfolding spread get
get-spread base [] k d = refl
get-spread base ((j, v) ∷ changes) k (n, d) = elim (Bool-cases (j == k)) [
  | inl e ↦
      rw
        (
          get-spread (put j v base) changes k d,
          get-put j v base k,
          e,
          get-absent changes k (rw (sym ((eq_iff j k).0 e)) n),
        )
        refl
  | inr e ↦ rw (get-spread (put j v base) changes k d, get-put j v base k, e) refl
]

current_settings-edit_all :
    (edits : Settings) (s : Page) → (edit_all edits s).current_settings ≡ s.current_settings
unfolding edit_all handle_setting_change
current_settings-edit_all [] s = refl
current_settings-edit_all ((k, v) ∷ edits) s =
    current_settings-edit_all edits (handle_setting_change k v s)

current_settings-fetched :
    (parse : String → Option (List LlmProfile)) (settings : Option Settings) (s : Page)
    → ((fetched parse settings s).current_settings ≡ settings)
      × ((fetched parse settings s).settings_changes ≡ s.settings_changes)
unfolding fetched
current_settings-fetched parse settings s =
    elim (Bool-cases (same_text (llm_profiles settings) (llm_profiles s.current_settings))) [
      | inl e ↦ rw e (refl, refl)
      | inr e ↦ rw e (refl, refl)
    ]

text-fields : (d : Settings) (k : String) → get (fields d) k ≡ Option.map text (get d k)
unfolding get
text-fields [] k = refl
text-fields ((j, v) ∷ d) k = elim (Bool-cases (j == k)) [
  | inl e ↦ rw e refl
  | inr e ↦ rw e (text-fields d k)
]

untext : (o p : Option String) → Option.map text o ≡ Option.map text p → o ≡ p
untext none none e = refl
untext none (some w) e = cc
untext (some v) none e = cc
untext (some v) (some w) e = cc

-- What is sent is what the page shows.
sent_fields :
    (s : Page) (sent : List (String × Value))
    → s.is_pending ≡ false
    → (handle_settings_submit s).0 ≡ some (update_settings sent)
    → sent ≡ fields (settings_params s)
unfolding handle_settings_submit
sent_fields s sent p h = let e = rw p at h in cc

-- From a page whose changes name no setting twice and with no save running: whatever the user
-- fills in between a click on the button that saves and its success, the page would then send the
-- old settings of the server if the button were clicked again; and if the settings fetched next
-- have for a key the value that the click sent, the page shows for it the value that the user gave
-- it before the click, or else the one it had on the server.
pub settings_params-saved :
    (parse : String → Option (List LlmProfile)) (s : Page) (edits saved : Settings)
    → (sent : List (String × Value)) (k : String) → s.is_pending ≡ false
    → Distinct (keys s.settings_changes)
    → (handle_settings_submit s).0 ≡ some (update_settings sent)
    → get (fields saved) k ≡ get sent k
    → let after = settings_on_success (edit_all edits (handle_settings_submit s).1) in
      ((handle_settings_submit after).0 ≡ some (update_settings (fields (own s.current_settings))))
      × (get (settings_params (fetched parse (some saved) after)) k
          ≡ or_get (get s.settings_changes k) (get (own s.current_settings) k))
unfolding handle_settings_submit settings_on_success settings_params spread
settings_params-saved parse s edits saved sent k p d h e =
    let parts =
      current_settings-fetched parse (some saved)
        (settings_on_success (edit_all edits (handle_settings_submit s).1)) in
    let kept = untext (get saved k) (get (settings_params s) k) (
      sym (text-fields saved k)
      ∙ e
      ∙ ap (λ f. get f k) (sent_fields s sent p h)
      ∙ text-fields (settings_params s) k) in
    (
      rw (p, current_settings-edit_all edits (record s { is_pending = true })) refl,
      rw (parts.0, parts.1) (kept ∙ get-spread (own s.current_settings) s.settings_changes k d),
    )

get-edit_all :
    (edits : Settings) (s : Page) (k : String)
    → has (keys edits) k ≡ false
    → get (edit_all edits s).settings_changes k ≡ get s.settings_changes k
unfolding edit_all handle_setting_change has
get-edit_all [] s k h = refl
get-edit_all ((j, v) ∷ edits) s k h = elim (Bool-cases (j == k)) [
  | inl e ↦ ground (arith, e)
  | inr e ↦
      get-edit_all edits (handle_setting_change j v s) k (ground arith)
      ∙ get-put j v s.settings_changes k
      ∙ rw e refl
]

edit_all-Distinct :
    (edits : Settings) (s : Page)
    → Distinct (keys s.settings_changes)
    → Distinct (keys (edit_all edits s).settings_changes)
unfolding edit_all handle_setting_change
edit_all-Distinct [] s d = d
edit_all-Distinct ((k, v) ∷ edits) s d =
    edit_all-Distinct edits (handle_setting_change k v s) (put-Distinct k v s.settings_changes d)

profiles-edit_all : (edits : Settings) (s : Page) → (edit_all edits s).profiles ≡ s.profiles
unfolding edit_all handle_setting_change
profiles-edit_all [] s = refl
profiles-edit_all ((k, v) ∷ edits) s = profiles-edit_all edits (handle_setting_change k v s)

profiles-fetched :
    (parse : String → Option (List LlmProfile)) (settings : Option Settings) (s : Page)
    → (fetched parse settings s).profiles ≡ (
        if same_text (llm_profiles settings) (llm_profiles s.current_settings)
        then s.profiles
        else parsed_profiles parse (llm_profiles settings))
unfolding fetched
profiles-fetched parse settings s =
    elim (Bool-cases (same_text (llm_profiles settings) (llm_profiles s.current_settings))) [
      | inl e ↦ rw e refl
      | inr e ↦ rw e refl
    ]

-- From a page whose changes name no setting twice, profiles that the user changed are what the
-- settings to be saved hold, whatever other fields are filled in and whatever settings are fetched
-- next; the page shows them if the text of the fetched profiles is that of before, and else shows
-- the fetched ones.
pub llm_profiles-handle_profiles_change :
    (parse : String → Option (List LlmProfile)) (stringify : List LlmProfile → String) (s : Page)
    → (ps : List LlmProfile) (edits : Settings) (settings : Option Settings)
    → Distinct (keys s.settings_changes)
    → has (keys edits) "llm_profiles" ≡ false
    → let later = fetched parse settings (edit_all edits (handle_profiles_change stringify ps s)) in
      (get (settings_params later) "llm_profiles" ≡ some (stringify ps))
      × (later.profiles ≡ (
          if same_text (llm_profiles settings) (llm_profiles s.current_settings)
          then ps
          else parsed_profiles parse (llm_profiles settings)))
unfolding settings_params handle_profiles_change
llm_profiles-handle_profiles_change parse stringify s ps edits settings d h =
    let chosen = handle_profiles_change stringify ps s in
    let edited = edit_all edits chosen in
    let distinct =
      edit_all-Distinct edits chosen
        (put-Distinct "llm_profiles" (stringify ps) s.settings_changes d) in
    (
      rw
          (
            (current_settings-fetched parse settings edited).1,
            get-spread (own (fetched parse settings edited).current_settings)
                edited.settings_changes "llm_profiles" distinct,
            get-edit_all edits chosen "llm_profiles" h,
            get-put "llm_profiles" (stringify ps) s.settings_changes "llm_profiles",
          )
          refl,
      rw
          (
            profiles-fetched parse settings edited,
            current_settings-edit_all edits chosen,
            profiles-edit_all edits chosen,
          )
          refl,
    )
