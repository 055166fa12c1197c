-- ===== src/Api/Session.antt =====
-- The axios instance of frontend/src/api/client.ts with its interceptor, and what login and logout of
-- frontend/src/api/services/authService.ts keep in `localStorage`. The network is a parameter: a
-- world, an attempt to send the request at hand, and the refresh request.
pub mod Retry
use cogni_cash.Base.{
  ℕ, zero, suc, String, ◌==◌, Bool, true, false, not, ◌&&◌, Option, none, some, if◌then◌else◌,
  truthy, nat_eq,
}

-- How an attempt ended: with data, with an axios error and its status if there was an answer, or with
-- another error.
pub data Reply : Type 0 where
  fulfilled : Reply
  rejected : Option ℕ → Reply
  other_error : Reply

pub record Session : Type 0 where
  pub refresh_token : Option String
  pub pathname : String

pub record Outcome (W : Type 0) : Type 0 where
  pub reply : Reply
  pub session : Session
  pub world : W

-- `axios.isAxiosError(error) && error.response?.status === 401`
abbrev pub unauthorized : Reply → Bool
unauthorized fulfilled = false
unauthorized (rejected none) = false
unauthorized (rejected (some status)) = nat_eq status 401
unauthorized other_error = false

abbrev to_login : Session → Session
to_login s = record s { pathname = "/login" }

module _ {W : Type 0} (attempt : W → Reply × W) (refresh : String → W → Option String × W) where
  abbrev done : Reply → Session → W → Option (Outcome W)
  done r s w = some (record { reply = r; session = s; world = w })

  -- After the refresh request: a new token and another attempt, or the login page.
  abbrev after_refresh :
      (Session → W → Option (Outcome W)) → Reply → Session → Option String → W → Option (Outcome W)
  after_refresh again r s none w = done r (to_login (record s { refresh_token = none })) w
  after_refresh again r s (some new) w = again (record s { refresh_token = some new }) w

  abbrev refresh_with :
      (Session → W → Option (Outcome W)) → Reply → Session → Option String → W → Option (Outcome W)
  refresh_with again r s none w = done r (to_login s) w
  refresh_with again r s (some token) w =
      if truthy token
      then after_refresh again r s (refresh token w).0 (refresh token w).1
      else done r (to_login s) w

  -- A request with its interceptor; `retried` is the mark `_retry` on the request. Fuel bounds how
  -- often the interceptor sends the request; `none` is that it was used up.
  unfoldable pub request : ℕ → Bool → Session → W → Option (Outcome W)
  request zero retried s w = none
  request (suc n) retried s w =
      let again = request n true in
      let r = (attempt w).0 in
      if unauthorized r && (not retried && not (s.pathname == "/login"))
      then refresh_with again r s s.refresh_token (attempt w).1
      else done r s (attempt w).1

-- `login` stores the refresh token of the answer, if there is one; `logout` sends what is stored and
-- forgets it.
unfoldable pub after_login : String → Session → Session
after_login token s = if truthy token then record s { refresh_token = some token } else s

unfoldable pub after_logout : Session → Session
after_logout s = record s { refresh_token = none }
