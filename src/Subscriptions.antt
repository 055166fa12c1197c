-- ===== src/Subscriptions.antt =====
-- frontend/src/pages/SubscriptionsPage.tsx: the monthly total, the search and the groups of the
-- subscriptions, and the mutations of the page; and the card of frontend/src/pages/DashboardPage.tsx
-- that sums the subscriptions up.
pub mod Detail
pub mod Totals
pub mod Params
mod Tests
use cogni_cash.Base.{
  ℕ, zero, suc, ◌*◌, String, Bool, true, false, not, ◌||◌, Option, none, some, List, [], ◌∷◌,
  if◌then◌else◌, includes, filter,
}
use cogni_cash.Base.Int.{ℤ, pos, sum_from}
use cogni_cash.Base.Platform.{Platform}
use cogni_cash.Types.{
  Subscription, SubscriptionStatus, active, cancellation_pending, cancelled, paused, BillingCycle,
  monthly, yearly, DiscoveryFeedback, DiscoveryFeedbackStatus, allowed, declined, ai_rejected,
}
use cogni_cash.Api.Request.{Fields}
use cogni_cash.Api.Services.Subscription.{
  SubscriptionCall, approve_subscription, decline_suggestion, remove_discovery_feedback,
  enrich_subscription, delete_subscription,
}

abbrev pub is_active : Subscription → Bool
is_active s = elim s.status [ active ↦ true | _ ↦ false ]

abbrev pub is_pending : Subscription → Bool
is_pending s = elim s.status [ cancellation_pending ↦ true | _ ↦ false ]

abbrev pub is_cancelled : Subscription → Bool
is_cancelled s = elim s.status [ cancelled ↦ true | _ ↦ false ]

abbrev pub is_yearly : Subscription → Bool
is_yearly s = elim s.billing_cycle [ yearly ↦ true | monthly ↦ false ]

-- `n || 1`
abbrev pub or_one : ℕ → ℕ
or_one zero = 1
or_one (suc n) = suc n

-- With the quotient of doubles.
module _ (quotient : ℤ → ℕ → ℤ) where
  -- The share of a month.
  abbrev pub monthly_amount : Subscription → ℤ
  monthly_amount s =
      let interval = or_one s.billing_interval in
      if is_yearly s then quotient s.amount (12 * interval) else quotient s.amount interval

  unfoldable pub total_monthly : List Subscription → ℤ
  unfolding sum_from
  total_monthly subscriptions =
      sum_from monthly_amount (pos 0) (filter (λ s. is_active s || is_pending s) subscriptions)

  abbrev pub card_amount : Subscription → ℤ
  card_amount s =
      if is_yearly s then quotient s.amount 12 else quotient s.amount (or_one s.billing_interval)

  -- The total on the card of the dashboard.
  unfoldable pub card_total : List Subscription → ℤ
  unfolding sum_from
  card_total subscriptions = sum_from card_amount (pos 0) (filter is_active subscriptions)

module _ (platform : Platform) where
  open platform use {to_lower}

  unfoldable pub filtered_subs : String → List Subscription → List Subscription
  filtered_subs search subscriptions =
      filter (λ (s : Subscription). includes (to_lower s.merchant_name) (to_lower search))
        subscriptions

  unfoldable pub active_group : String → List Subscription → List Subscription
  unfolding filtered_subs
  active_group search subscriptions =
      filter (λ s. not (is_cancelled s)) (filtered_subs search subscriptions)

  unfoldable pub cancelled_group : String → List Subscription → List Subscription
  unfolding filtered_subs
  cancelled_group search subscriptions = filter is_cancelled (filtered_subs search subscriptions)

abbrev pub is_declined : DiscoveryFeedback → Bool
is_declined f = elim f.status [ allowed ↦ false | declined ↦ true | ai_rejected ↦ true ]

unfoldable pub declined_feedback : List DiscoveryFeedback → List DiscoveryFeedback
declined_feedback feedback = filter is_declined feedback

-- The mutations of the page with their variables.
pub data Mutation : Type 0 where
  approve : Fields → Mutation
  decline : String → Mutation
  undecline : String → Mutation
  enrich : String → Mutation
  remove : String → Mutation

unfoldable pub call_of : Mutation → SubscriptionCall
call_of (approve suggestion) = approve_subscription suggestion
call_of (decline merchant) = decline_suggestion merchant
call_of (undecline merchant) = remove_discovery_feedback merchant
call_of (enrich id) = enrich_subscription id
call_of (remove id) = delete_subscription id

-- The cached queries that are fetched again after it succeeded.
unfoldable pub invalidated : Mutation → List String
invalidated (approve suggestion) = "subscriptions" ∷ "suggestedSubscriptions" ∷ "transactions" ∷ []
invalidated (decline merchant) = "suggestedSubscriptions" ∷ "discoveryFeedback" ∷ []
invalidated (undecline merchant) = "suggestedSubscriptions" ∷ "discoveryFeedback" ∷ []
invalidated (enrich id) = "subscriptions" ∷ []
invalidated (remove id) = "subscriptions" ∷ "transactions" ∷ []

-- With the user's answer to the question whether to delete.
unfoldable pub handle_delete : Bool → String → Option Mutation
handle_delete confirmed id = if confirmed then some (remove id) else none
