-- ===== src/Api/Services/Subscription.antt =====
-- frontend/src/api/services/subscriptionService.ts
use cogni_cash.Base.{String, Option, List, [], ◌∷◌}
use cogni_cash.Api.Request.{
  Request, Value, Fields, text, texts, object, post, put, delete, empty, null_body, json, send,
  fetch, optional,
}

pub data SubscriptionCall : Type 0 where
  fetch_subscriptions : SubscriptionCall
  get_subscription : String → SubscriptionCall
  update_subscription : String → List (String × Value) → SubscriptionCall
  fetch_suggested_subscriptions : SubscriptionCall
  fetch_discovery_feedback : SubscriptionCall
  approve_subscription : Fields → SubscriptionCall
  decline_suggestion : String → SubscriptionCall
  remove_discovery_feedback : String → SubscriptionCall
  fetch_declined_subscriptions : SubscriptionCall
  undecline_suggestion : String → SubscriptionCall
  delete_subscription : String → SubscriptionCall
  enrich_subscription : String → SubscriptionCall
  preview_cancellation : String → Option String → SubscriptionCall
  cancel_subscription : String → String → String → SubscriptionCall
  fetch_subscription_events : String → SubscriptionCall
  link_transaction : String → String → SubscriptionCall
  link_transactions : String → List String → SubscriptionCall
  unlink_transaction : String → String → SubscriptionCall
  create_from_transaction : String → String → SubscriptionCall

unfoldable pub subscription_request : SubscriptionCall → Request
subscription_request fetch_subscriptions = fetch ("subscriptions" ∷ []) []
subscription_request (get_subscription id) = fetch ("subscriptions" ∷ id ∷ []) []
subscription_request (update_subscription id sub) = send put ("subscriptions" ∷ id ∷ []) (json sub)
subscription_request fetch_suggested_subscriptions = fetch ("subscriptions" ∷ "suggested" ∷ []) []
subscription_request fetch_discovery_feedback = fetch ("subscriptions" ∷ "feedback" ∷ []) []
subscription_request (approve_subscription suggestion) =
    send post ("subscriptions" ∷ "approve" ∷ []) (json (("suggestion", object suggestion) ∷ []))
subscription_request (decline_suggestion merchant) =
    send post ("subscriptions" ∷ "decline" ∷ []) (json (("merchant_name", text merchant) ∷ []))
subscription_request (remove_discovery_feedback merchant) =
    send post ("subscriptions" ∷ "remove-feedback" ∷ [])
      (json (("merchant_name", text merchant) ∷ []))
subscription_request fetch_declined_subscriptions = fetch ("subscriptions" ∷ "feedback" ∷ []) []
subscription_request (undecline_suggestion merchant) =
    send post ("subscriptions" ∷ "remove-feedback" ∷ [])
      (json (("merchant_name", text merchant) ∷ []))
subscription_request (delete_subscription id) = send delete ("subscriptions" ∷ id ∷ []) empty
subscription_request (enrich_subscription id) =
    send post ("subscriptions" ∷ id ∷ "enrich" ∷ []) empty
subscription_request (preview_cancellation id lang) =
    record (send post ("subscriptions" ∷ id ∷ "preview-cancellation" ∷ []) null_body) {
      params = ("lang", optional lang) ∷ [];
    }
subscription_request (cancel_subscription id subject body) =
    send post ("subscriptions" ∷ id ∷ "cancel" ∷ [])
      (json (("subject", text subject) ∷ ("body", text body) ∷ []))
subscription_request (fetch_subscription_events id) =
    fetch ("subscriptions" ∷ id ∷ "events" ∷ []) []
subscription_request (link_transaction sub_id hash) =
    send post ("subscriptions" ∷ sub_id ∷ "transactions" ∷ hash ∷ "link" ∷ []) empty
subscription_request (link_transactions sub_id hashes) =
    send post ("subscriptions" ∷ sub_id ∷ "transactions" ∷ "link" ∷ [])
      (json (("hashes", texts hashes) ∷ []))
subscription_request (unlink_transaction sub_id hash) =
    send delete ("subscriptions" ∷ sub_id ∷ "transactions" ∷ hash ∷ "unlink" ∷ []) empty
subscription_request (create_from_transaction hash cycle) =
    send post ("subscriptions" ∷ "from-transaction" ∷ [])
      (json (("transaction_hash", text hash) ∷ ("billing_cycle", text cycle) ∷ []))
