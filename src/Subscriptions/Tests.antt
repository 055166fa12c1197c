-- ===== src/Subscriptions/Tests.antt =====
-- The theorems on subscriptions at concrete ones.
use cogni_cash.Base.{◌≡◌, refl, true, false, none, [], ◌∷◌, ℕ}
use cogni_cash.Base.Int.{ℤ, pos}
use cogni_cash.Base.Collections.{get}
use cogni_cash.Types.{Subscription, active, paused, monthly, yearly}
use cogni_cash.Subscriptions.{total_monthly, card_total}
use cogni_cash.Subscriptions.Detail.{opened}
use cogni_cash.Subscriptions.Totals.{total_monthly-card_total}
use cogni_cash.Subscriptions.Params.{
  Event, after_events, after_events-opened, show_enriched_badge-opened,
}

abbrev music : Subscription
music = record {
  id = "s1";
  user_id = "u1";
  merchant_name = "Music";
  amount = pos 999;
  currency = "EUR";
  billing_cycle = monthly;
  billing_interval = 3;
  category_id = none;
  customer_number = none;
  contact_email = none;
  contact_phone = none;
  contact_website = none;
  support_url = none;
  cancellation_url = none;
  status = active;
  notice_period_days = 30;
  contract_end_date = none;
  is_trial = false;
  payment_method = none;
  last_occurrence = none;
  next_occurrence = none;
  notes = none;
  bank_account_id = none;
  matching_hashes = [];
  ignored_hashes = [];
  created_at = "2024-01-01";
  updated_at = "2024-01-01";
}

abbrev insurance : Subscription
insurance = record music { id = "s2"; billing_cycle = yearly; billing_interval = 1 }

abbrev magazine : Subscription
magazine = record music { id = "s3"; status = paused }

-- A quotient that forgets the divisor.
abbrev quotient : ℤ → ℕ → ℤ
quotient a n = a

total_monthly-card_total_example :
    total_monthly quotient (music ∷ insurance ∷ magazine ∷ [])
    ≡ card_total quotient (music ∷ insurance ∷ magazine ∷ [])
total_monthly-card_total_example =
    total_monthly-card_total quotient (music ∷ insurance ∷ magazine ∷ []) refl

after_events-opened_example :
    ((after_events
        (Event.waited ∷ Event.rendered ∷ [])
        (opened (("cancel", "true") ∷ []))).previews_requested
      ≡ 1)
    × (get
          (after_events
            (Event.waited ∷ Event.rendered ∷ [])
            (opened (("cancel", "true") ∷ []))).search_params
          "cancel"
        ≡ none)
unfolding get
after_events-opened_example =
    after_events-opened (("cancel", "true") ∷ []) (Event.waited ∷ Event.rendered ∷ []) refl

show_enriched_badge-opened_example :
    (after_events
      (Event.waited ∷ Event.waited ∷ [])
      (opened (("enriched", "true") ∷ []))).show_enriched_badge
    ≡ true
unfolding get
show_enriched_badge-opened_example =
    show_enriched_badge-opened (("enriched", "true") ∷ []) (Event.waited ∷ Event.waited ∷ []) refl
