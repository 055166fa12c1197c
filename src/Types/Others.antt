-- ===== src/Types/Others.antt =====
-- frontend/src/api/types/category.ts, payslip.ts, invoice.ts, bank.ts, subscription.ts, common.ts and
-- system.ts, under the conventions of the transaction types.
use cogni_cash.Base.{ℕ, String, Bool, Option, List}
use cogni_cash.Base.Int.{ℤ}
use cogni_cash.Types.Ledger.{StatementType}

pub record Category : Type 0 where
  pub id : String
  pub name : String
  pub color : String
  pub is_variable_spending : Bool
  pub forecast_strategy : String
  pub is_shared : Bool
  pub shared_with : Option (List String)
  pub owner_id : String
  pub created_at : String
  pub deleted_at : Option String

pub record Bonus : Type 0 where
  pub description : String
  pub amount : ℤ
  pub base_amount : ℤ

pub record Payslip : Type 0 where
  pub id : String
  pub original_file_name : String
  pub period_month_num : ℕ
  pub period_year : ℕ
  pub employer_name : String
  pub tax_class : String
  pub tax_id : String
  pub currency : String
  pub gross_pay : ℤ
  pub base_gross_pay : ℤ
  pub net_pay : ℤ
  pub base_net_pay : ℤ
  pub payout_amount : ℤ
  pub base_payout_amount : ℤ
  pub custom_deductions : ℤ
  pub bonuses : Option (List Bonus)
  pub created_at : String

pub record PayslipTrend : Type 0 where
  pub period : String
  pub gross : ℤ
  pub net : ℤ

pub record PayslipSummary : Type 0 where
  pub total_gross : ℤ
  pub total_net : ℤ
  pub total_payout : ℤ
  pub total_bonuses : ℤ
  pub payslip_count : ℕ
  pub latest_net_pay : ℤ
  pub net_pay_trend : ℤ
  pub latest_period : String
  pub trends : List PayslipTrend

pub record Vendor : Type 0 where
  pub id : String
  pub name : String

pub record InvoiceSplit : Type 0 where
  pub id : String
  pub invoice_id : String
  pub category_id : String
  pub amount : ℤ
  pub base_amount : ℤ
  pub description : String

-- The source guards against a missing vendor, date and description, so they may be absent here.
pub record Invoice : Type 0 where
  pub id : String
  pub user_id : String
  pub vendor : Option Vendor
  pub category_id : Option String
  pub amount : ℤ
  pub currency : String
  pub base_amount : ℤ
  pub base_currency : String
  pub issued_at : Option String
  pub description : Option String
  pub is_shared : Bool
  pub shared_with : Option (List String)
  pub owner_id : String
  pub splits : Option (List InvoiceSplit)

pub record BankStatementSummary : Type 0 where
  pub id : String
  pub statement_no : ℕ
  pub period_label : String
  pub iban : String
  pub currency : String
  pub new_balance : ℤ
  pub start_date : String
  pub end_date : String
  pub transaction_count : ℕ
  pub statement_type : StatementType
  pub has_original_file : Bool

-- `'imported' | 'duplicate' | 'error'`
pub data ImportStatus : Type 0 where
  imported duplicate error : ImportStatus

pub record ImportResult : Type 0 where
  pub filename : String
  pub status : ImportStatus
  pub error : Option String
  pub id : Option String

pub data SubscriptionStatus : Type 0 where
  active cancellation_pending cancelled paused : SubscriptionStatus

-- `'monthly' | 'yearly'`
pub data BillingCycle : Type 0 where
  monthly yearly : BillingCycle

pub record Subscription : Type 0 where
  pub id : String
  pub user_id : String
  pub merchant_name : String
  pub amount : ℤ
  pub currency : String
  pub billing_cycle : BillingCycle
  pub billing_interval : ℕ
  pub category_id : Option String
  pub customer_number : Option String
  pub contact_email : Option String
  pub contact_phone : Option String
  pub contact_website : Option String
  pub support_url : Option String
  pub cancellation_url : Option String
  pub status : SubscriptionStatus
  pub notice_period_days : ℕ
  pub contract_end_date : Option String
  pub is_trial : Bool
  pub payment_method : Option String
  pub last_occurrence : Option String
  pub next_occurrence : Option String
  pub notes : Option String
  pub bank_account_id : Option String
  pub matching_hashes : List String
  pub ignored_hashes : List String
  pub created_at : String
  pub updated_at : String

pub data DiscoveryFeedbackStatus : Type 0 where
  allowed declined ai_rejected : DiscoveryFeedbackStatus

pub record DiscoveryFeedback : Type 0 where
  pub user_id : String
  pub merchant_name : String
  pub status : DiscoveryFeedbackStatus
  pub source : String
  pub created_at : String
  pub updated_at : String

pub record User : Type 0 where
  pub id : String
  pub username : String
  pub email : String
  pub full_name : String
  pub address : String
  pub role : String

pub record AuthResponse : Type 0 where
  pub token : String
  pub refresh_token : String
