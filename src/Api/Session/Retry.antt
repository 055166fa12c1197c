-- ===== src/Api/Session/Retry.antt =====
-- The interceptor sends a request at most twice, and what it leaves behind.
use cogni_cash.Base.{
  ℕ, suc, String, ◌==◌, eq_iff, ◌≡◌, refl, ◌≢◌, ◌⊎◌, inl, inr, Bool, true, false, not, ◌&&◌, Option,
  none, some, if◌then◌else◌, truthy, arith, Bool-cases,
}
use cogni_cash.Api.Session.{
  Reply, Session, Outcome, unauthorized, after_refresh, refresh_with, request,
}

module _ {W : Type 0} (attempt : W → Reply × W) (refresh : String → W → Option String × W) where
  -- What a request comes to that is not sent again.
  abbrev pub settled : Session → W → Outcome W
  settled s w = record { reply = (attempt w).0; session = s; world = (attempt w).1 }

  retried_request :
      (n : ℕ) (s : Session) (w : W) → request attempt refresh (suc n) true s w ≡ some (settled s w)
  unfolding request
  retried_request n s w = elim (Bool-cases (unauthorized (attempt w).0)) [
    | inl e ↦ rw e refl
    | inr e ↦ rw e refl
  ]

  -- What the interceptor makes of a request that it sees for the first time, without any loop.
  abbrev pub refreshed : Reply → Session → Option String → W → Outcome W
  refreshed r s none w = record {
    reply = r;
    session = record s { refresh_token = none; pathname = "/login" };
    world = w;
  }
  refreshed r s (some new) w = settled (record s { refresh_token = some new }) w

  abbrev pub first_refused : Reply → Session → Option String → W → Outcome W
  first_refused r s none w = record {
    reply = r;
    session = record s { pathname = "/login" };
    world = w;
  }
  first_refused r s (some token) w =
      if truthy token
      then refreshed r s (refresh token w).0 (refresh token w).1
      else record { reply = r; session = record s { pathname = "/login" }; world = w }

  abbrev pub outcome : Bool → Session → W → Outcome W
  outcome retried s w =
      if unauthorized (attempt w).0 && (not retried && not (s.pathname == "/login"))
      then first_refused (attempt w).0 s s.refresh_token (attempt w).1
      else settled s w

  after_refresh_lem :
      (n : ℕ) (r : Reply) (s : Session) (o : Option String) (w : W)
      → after_refresh attempt refresh (request attempt refresh (suc n) true) r s o w
        ≡ some (refreshed r s o w)
  after_refresh_lem n r s none w = refl
  after_refresh_lem n r s (some new) w = retried_request n (record s { refresh_token = some new }) w

  refresh_with_lem :
      (n : ℕ) (r : Reply) (s : Session) (o : Option String) (w : W)
      → refresh_with attempt refresh (request attempt refresh (suc n) true) r s o w
        ≡ some (first_refused r s o w)
  refresh_with_lem n r s none w = refl
  refresh_with_lem n r s (some token) w = elim (Bool-cases (truthy token)) [
    | inl e ↦ rw e (after_refresh_lem n r s (refresh token w).0 (refresh token w).1)
    | inr e ↦ rw e refl
  ]

  abbrev pub retries : Bool → Session → W → Bool
  retries retried s w = unauthorized (attempt w).0 && (not retried && not (s.pathname == "/login"))

  request-suc :
      (n : ℕ) (retried : Bool) (s : Session) (w : W)
      → request attempt refresh (suc n) retried s w ≡ (
          if retries retried s w
          then refresh_with attempt refresh
              (request attempt refresh n true)
              (attempt w).0
              s
              s.refresh_token
              (attempt w).1
          else some (settled s w))
  unfolding request
  request-suc n retried s w = refl

  -- Two units of fuel are always enough, and more change nothing: a request is sent at most twice,
  -- the second time with a refreshed token and only after an unauthorized first attempt off the
  -- login page with a token stored, and its outcome is the one written down without a loop.
  pub request_lem :
      (n : ℕ) (retried : Bool) (s : Session) (w : W)
      → request attempt refresh (suc (suc n)) retried s w ≡ some (outcome retried s w)
  request_lem n retried s w = elim (Bool-cases (retries retried s w)) [
    | inl e ↦
        rw (request-suc (suc n) retried s w, e)
          (refresh_with_lem n (attempt w).0 s s.refresh_token (attempt w).1)
    | inr e ↦ rw (request-suc (suc n) retried s w, e) refl
  ]

  abbrev pub AtLoginOrRefreshed : Option String → W → Outcome W → Type 0
  AtLoginOrRefreshed stored w o =
      (o.session.pathname ≡ "/login")
      ⊎ ((token : String) × (new : String) × (stored ≡ some token)
          × ((refresh token w).0 ≡ some new)
          × (o.session.refresh_token ≡ some new))

  refreshed_cases :
      (r : Reply) (s : Session) (token : String) (answer : Option String) (w w' : W)
      → (refresh token w).0 ≡ answer
      → AtLoginOrRefreshed (some token) w (refreshed r s answer w')
  refreshed_cases r s token none w w' e = inl refl
  refreshed_cases r s token (some new) w w' e = inr (token, new, refl, e, refl)

  refused_cases :
      (r : Reply) (s : Session) (stored : Option String) (w : W)
      → AtLoginOrRefreshed stored w (first_refused r s stored w)
  refused_cases r s none w = inl refl
  refused_cases r s (some token) w = elim (Bool-cases (truthy token)) [
    | inl e ↦ rw e (refreshed_cases r s token (refresh token w).0 w (refresh token w).1 refl)
    | inr e ↦ rw e (inl refl)
  ]

  outcome_cases :
      (s : Session) (w : W)
      → s.pathname ≢ "/login"
      → (unauthorized (outcome false s w).reply ≡ false)
        ⊎ AtLoginOrRefreshed s.refresh_token (attempt w).1 (outcome false s w)
  outcome_cases s w away = elim (Bool-cases (retries false s w)) [
    | inl e ↦ inr (rw e (refused_cases (attempt w).0 s s.refresh_token (attempt w).1))
    | inr e ↦ inl (rw e (ground (arith, eq_iff s.pathname "/login")))
  ]

  -- A first request off the login page returns, with two units of fuel or more; its answer is not
  -- unauthorized, or the user has been sent to the login page, or the refresh gave a new token
  -- that is now stored.
  pub unauthorized_lem :
      (n : ℕ) (s : Session) (w : W)
      → s.pathname ≢ "/login"
      → (o : Outcome W) × (request attempt refresh (suc (suc n)) false s w ≡ some o)
        × ((unauthorized o.reply ≡ false) ⊎ AtLoginOrRefreshed s.refresh_token (attempt w).1 o)
  unauthorized_lem n s w away = (outcome false s w, request_lem n false s w, outcome_cases s w away)
