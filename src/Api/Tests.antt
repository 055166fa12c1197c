-- ===== src/Api/Tests.antt =====
-- The theorems on requests, the interceptor and the settings at concrete values.
use cogni_cash.Base.{
  ℕ, String, ◌==◌, eq_iff, ◌≡◌, ◌≢◌, ◌⊎◌, true, false, Option, none, some, [], ◌∷◌, arith,
  if◌then◌else◌,
}
use cogni_cash.Base.Collections.{get}
use cogni_cash.Api.Session.{Reply, rejected, Session, Outcome, unauthorized, request}
use cogni_cash.Api.Session.Retry.{request_lem, unauthorized_lem, outcome, AtLoginOrRefreshed}
use cogni_cash.Api.Settings.{Settings, merge_effective_settings, get_namespaced_key}
use cogni_cash.Api.Settings.Merging.{get-merge_effective_settings, first_of}

-- A network whose world counts the attempts: it answers 401, and refreshes one token.
abbrev refusing : ℕ → Reply × ℕ
refusing n = (rejected (some 401), ℕ.suc n)

abbrev refreshing : String → ℕ → Option String × ℕ
refreshing token n = (if token == "old" then some "new" else none, n)

abbrev at_home : Session
at_home = record { refresh_token = some "old"; pathname = "/transactions" }

request_lem_example :
    request refusing refreshing 2 false at_home 0
    ≡ some (outcome refusing refreshing false at_home 0)
request_lem_example = request_lem refusing refreshing 0 false at_home 0

home_is_not_login : at_home.pathname ≢ "/login"
home_is_not_login = ground (arith, eq_iff "/transactions" "/login")

unauthorized_lem_example :
    (o : Outcome ℕ) × (request refusing refreshing 2 false at_home 0 ≡ some o)
    × ((unauthorized o.reply ≡ false) ⊎ AtLoginOrRefreshed refusing refreshing (some "old") 1 o)
unauthorized_lem_example = unauthorized_lem refusing refreshing 0 at_home 0 home_is_not_login

abbrev stored_settings : Settings
stored_settings = (("theme", "light") ∷ ("client.d1.theme", "dark") ∷ [])

get-merge_effective_settings_example :
    get (merge_effective_settings "d1" stored_settings) "theme"
    ≡ first_of
        (get stored_settings (get_namespaced_key "d1" "theme" true))
        (get stored_settings "theme")
get-merge_effective_settings_example = get-merge_effective_settings "d1" stored_settings "theme"
