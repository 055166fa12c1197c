-- ===== src/Api/Services/Category.antt =====
-- frontend/src/api/services/categoryService.ts
use cogni_cash.Base.{String, Bool, false, Option, [], ◌∷◌}
use cogni_cash.Api.Request.{
  Request, text, flag, post, put, delete, empty, json, send, fetch, optional, default,
}

pub data CategoryCall : Type 0 where
  fetch_categories : CategoryCall
  fetch_average : String → String → CategoryCall
  create : String → String → Option Bool → Option String → CategoryCall
  update : String → String → String → Option Bool → Option String → CategoryCall
  delete_category : String → CategoryCall
  restore : String → CategoryCall
  share : String → String → Option String → CategoryCall
  revoke_share : String → String → CategoryCall
  fetch_shares : String → CategoryCall

unfoldable pub category_request : CategoryCall → Request
category_request fetch_categories = fetch ("categories" ∷ []) []
category_request (fetch_average id strategy) =
    fetch ("categories" ∷ id ∷ "average" ∷ []) (("strategy", text strategy) ∷ [])
category_request (create name color variable strategy) = send post ("categories" ∷ []) (
    json (
      ("name", text name)
      ∷ ("color", text color)
      ∷ ("is_variable_spending", flag (default false variable))
      ∷ ("forecast_strategy", text (default "3y" strategy))
      ∷ []))
category_request (update id name color variable strategy) = send put ("categories" ∷ id ∷ []) (
    json (
      ("name", text name)
      ∷ ("color", text color)
      ∷ ("is_variable_spending", flag (default false variable))
      ∷ ("forecast_strategy", optional strategy)
      ∷ []))
category_request (delete_category id) = send delete ("categories" ∷ id ∷ []) empty
category_request (restore id) = send post ("categories" ∷ id ∷ "restore" ∷ []) empty
category_request (share id user permission) =
    send post ("categories" ∷ id ∷ "share" ∷ [])
      (json (("user_id", text user) ∷ ("permission", text (default "view" permission)) ∷ []))
category_request (revoke_share id user) =
    send delete ("categories" ∷ id ∷ "share" ∷ user ∷ []) empty
category_request (fetch_shares id) = fetch ("categories" ∷ id ∷ "shares" ∷ []) []
