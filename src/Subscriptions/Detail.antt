-- ===== src/Subscriptions/Detail.antt =====
-- frontend/src/pages/SubscriptionDetailPage.tsx: the form of a subscription, its mutations, and the
-- effect on the parameters `enriched` and `cancel` of the URL.
use cogni_cash.Base.{
  ℕ, suc, String, Bool, true, false, ◌||◌, Option, none, some, List, [], ◌∷◌, if◌then◌else◌,
  text_or, is_text,
}
use cogni_cash.Base.Int.{ℤ, pos, abs, sum_from}
use cogni_cash.Base.Collections.{get, remove}
use cogni_cash.Types.{
  Subscription, SubscriptionStatus, active, cancellation_pending, cancelled, paused, BillingCycle,
  monthly, yearly, CancellationLetterResult, Transaction,
}
use cogni_cash.Transactions.Page.{Params}
use cogni_cash.Api.Request.{Value, text, number, flag}
use cogni_cash.Api.Services.Subscription.{
  SubscriptionCall, update_subscription, cancel_subscription, delete_subscription, link_transaction,
  link_transactions, unlink_transaction, enrich_subscription, preview_cancellation,
}

pub record EditForm : Type 0 where
  pub merchant_name : String
  pub amount : ℤ
  pub billing_cycle : BillingCycle
  pub billing_interval : ℕ
  pub status : SubscriptionStatus
  pub customer_number : String
  pub contact_email : String
  pub contact_phone : String
  pub contact_website : String
  pub support_url : String
  pub cancellation_url : String
  pub is_trial : Bool
  pub notes : String
  pub bank_account_id : String

abbrev pub empty_form : EditForm
empty_form = record {
  merchant_name = "";
  amount = pos 0;
  billing_cycle = monthly;
  billing_interval = 1;
  status = active;
  customer_number = "";
  contact_email = "";
  contact_phone = "";
  contact_website = "";
  support_url = "";
  cancellation_url = "";
  is_trial = false;
  notes = "";
  bank_account_id = "";
}

-- The form as the fetched subscription fills it.
unfoldable pub form_of : Subscription → EditForm
form_of subscription = record {
  merchant_name = subscription.merchant_name;
  amount = subscription.amount;
  billing_cycle = subscription.billing_cycle;
  billing_interval = subscription.billing_interval;
  status = subscription.status;
  customer_number = text_or subscription.customer_number "";
  contact_email = text_or subscription.contact_email "";
  contact_phone = text_or subscription.contact_phone "";
  contact_website = text_or subscription.contact_website "";
  support_url = text_or subscription.support_url "";
  cancellation_url = text_or subscription.cancellation_url "";
  is_trial = subscription.is_trial;
  notes = text_or subscription.notes "";
  bank_account_id = text_or subscription.bank_account_id "";
}

-- The page's state, where a timer is pending or not.
pub record Page : Type 0 where
  pub is_editing : Bool
  pub edit_form : EditForm
  pub show_cancel_modal : Bool
  pub cancellation_draft : Option CancellationLetterResult
  pub show_enriched_badge : Bool
  pub badge_timer : Bool
  pub enrich_timer : Bool
  pub params_processed : Bool
  pub previews_requested : ℕ
  pub search_params : Params

-- The first render with the parameters of the URL.
unfoldable pub first_render : Params → Page
unfolding get
first_render params = record {
  is_editing = false;
  edit_form = empty_form;
  show_cancel_modal = is_text (get params "cancel") "true";
  cancellation_draft = none;
  show_enriched_badge = is_text (get params "enriched") "true";
  badge_timer = false;
  enrich_timer = false;
  params_processed = false;
  previews_requested = 0;
  search_params = params;
}

-- The body of the effect; a timer that it starts is its clean-up's to clear.
unfoldable pub effect_body : Page → Page
unfolding get remove
effect_body p =
    if p.params_processed
    then p
    else if is_text (get p.search_params "enriched") "true"
    then record p {
      badge_timer = true;
      search_params = remove "enriched" p.search_params;
      params_processed = true;
    }
    else if is_text (get p.search_params "cancel") "true"
    then record p {
      previews_requested = suc p.previews_requested;
      search_params = remove "cancel" p.search_params;
      params_processed = true;
    }
    else p

-- A render runs the clean-up of the last effect and the effect again: the mutation object among its
-- dependencies is a new one.
unfoldable pub rerender : Page → Page
unfolding effect_body
rerender p = effect_body (record p { badge_timer = false })

-- The page after the first render, its effect, and the render that the new parameters bring.
unfoldable pub opened : Params → Page
unfolding first_render effect_body rerender
opened params = rerender (effect_body (first_render params))

-- Ten seconds later a pending timer hides the badge.
unfoldable pub ten_seconds_later : Page → Page
ten_seconds_later p =
    if p.badge_timer || p.enrich_timer
    then record p { show_enriched_badge = false; badge_timer = false; enrich_timer = false }
    else p

unfoldable pub start_editing : Option Subscription → Page → Page
unfolding form_of
start_editing none p = p
start_editing (some subscription) p = record p {
  edit_form = form_of subscription;
  is_editing = true;
}

abbrev cycle_text : BillingCycle → String
cycle_text monthly = "monthly"
cycle_text yearly = "yearly"

abbrev status_text : SubscriptionStatus → String
status_text active = "active"
status_text cancellation_pending = "cancellation_pending"
status_text cancelled = "cancelled"
status_text paused = "paused"

abbrev pub form_fields : EditForm → List (String × Value)
form_fields f =
    ("merchant_name", text f.merchant_name)
    ∷ ("amount", number f.amount)
    ∷ ("billing_cycle", text (cycle_text f.billing_cycle))
    ∷ ("billing_interval", number (pos f.billing_interval))
    ∷ ("status", text (status_text f.status))
    ∷ ("customer_number", text f.customer_number)
    ∷ ("contact_email", text f.contact_email)
    ∷ ("contact_phone", text f.contact_phone)
    ∷ ("contact_website", text f.contact_website)
    ∷ ("support_url", text f.support_url)
    ∷ ("cancellation_url", text f.cancellation_url)
    ∷ ("is_trial", flag f.is_trial)
    ∷ ("notes", text f.notes)
    ∷ ("bank_account_id", text f.bank_account_id)
    ∷ []

unfoldable pub handle_save : String → Page → SubscriptionCall
handle_save id p = update_subscription id (form_fields p.edit_form)

-- With the user's answer to the question whether to delete.
unfoldable pub handle_delete : Bool → String → Option SubscriptionCall
handle_delete confirmed id = if confirmed then some (delete_subscription id) else none

-- One transaction or several.
pub data Hashes : Type 0 where
  one_hash : String → Hashes
  many_hashes : List String → Hashes

unfoldable pub link_call : String → Hashes → SubscriptionCall
link_call id (one_hash hash) = link_transaction id hash
link_call id (many_hashes hashes) = link_transactions id hashes

-- The mutations of the page.
pub data Mutation : Type 0 where
  preview : String → Mutation
  cancel : String → String → Mutation
  delete : Mutation
  update : EditForm → Mutation
  unlink : String → Mutation
  link : Hashes → Mutation
  enrich : Mutation

unfoldable pub call_of : String → Mutation → SubscriptionCall
unfolding link_call
call_of id (preview language) = preview_cancellation id (some language)
call_of id (cancel subject body) = cancel_subscription id subject body
call_of id delete = delete_subscription id
call_of id (update form) = update_subscription id (form_fields form)
call_of id (unlink hash) = unlink_transaction id hash
call_of id (link hashes) = link_call id hashes
call_of id enrich = enrich_subscription id

-- The keys that are fetched again after it succeeded.
unfoldable pub invalidated : String → Mutation → List (List String)
invalidated id (preview language) = []
invalidated id (cancel subject body) =
    ("subscription" ∷ id ∷ []) ∷ ("subscriptionEvents" ∷ id ∷ []) ∷ []
invalidated id delete = ("subscriptions" ∷ []) ∷ ("transactions" ∷ []) ∷ []
invalidated id (update form) = ("subscription" ∷ id ∷ []) ∷ ("subscriptions" ∷ []) ∷ []
invalidated id (unlink hash) =
    ("subscription" ∷ id ∷ []) ∷ ("subscriptionTransactions" ∷ id ∷ []) ∷ ("transactions" ∷ []) ∷ []
invalidated id (link hashes) =
    ("subscription" ∷ id ∷ []) ∷ ("subscriptionTransactions" ∷ id ∷ []) ∷ ("transactions" ∷ []) ∷ []
invalidated id enrich = ("subscription" ∷ id ∷ []) ∷ []

-- What the state becomes when a mutation succeeded; a preview brings its letter. No clean-up clears
-- the timer of an enrichment.
unfoldable pub on_success : Mutation → Option CancellationLetterResult → Page → Page
on_success (preview language) letter p = record p { cancellation_draft = letter }
on_success (cancel subject body) letter p = record p {
  show_cancel_modal = false;
  cancellation_draft = none;
}
on_success (update form) letter p = record p { is_editing = false }
on_success enrich letter p = record p { show_enriched_badge = true; enrich_timer = true }
on_success m letter p = p

unfoldable pub total_spent : List Transaction → ℤ
unfolding sum_from abs
total_spent transactions = sum_from (λ (tx : Transaction). abs tx.amount) (pos 0) transactions
