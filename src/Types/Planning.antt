-- ===== src/Types/Planning.antt =====
-- The types of frontend/src/api/types that the forecasting, reconciliation, analytics, bank and
-- subscription services answer with, under the conventions of the transaction types.
use cogni_cash.Base.{ℕ, String, Bool, Option, List}
use cogni_cash.Base.Int.{ℤ}
use cogni_cash.Types.Ledger.{Transaction, StatementType, TimeSeriesPoint}
use cogni_cash.Types.Others.{BillingCycle}

pub data PlannedStatus : Type 0 where
  pending matched expired : PlannedStatus

pub data SchedulingStrategy : Type 0 where
  fixed_day last_bank_day : SchedulingStrategy

pub record PlannedTransaction : Type 0 where
  pub id : String
  pub user_id : String
  pub amount : ℤ
  pub currency : String
  pub base_amount : ℤ
  pub base_currency : String
  pub date : String
  pub description : String
  pub category_id : String
  pub bank_account_id : Option String
  pub status : PlannedStatus
  pub matched_transaction_id : Option String
  pub interval_months : ℕ
  pub scheduling_strategy : SchedulingStrategy
  pub end_date : Option String
  pub is_superseded : Bool
  pub is_shared : Bool
  pub created_at : String

pub record Reconciliation : Type 0 where
  pub id : String
  pub settlement_transaction_hash : String
  pub target_transaction_hash : String
  pub settlement_transaction_description : Option String
  pub target_transaction_description : Option String
  pub settlement_booking_date : Option String
  pub target_booking_date : Option String
  pub settlement_statement_type : Option StatementType
  pub target_statement_type : Option StatementType
  pub amount : ℤ
  pub reconciled_at : String

-- `'income' | 'expense'`
pub data FlowType : Type 0 where
  income expense : FlowType

pub record CategoryTotal : Type 0 where
  pub category : String
  pub amount : ℤ
  pub type : FlowType
  pub color : String

pub record MerchantTotal : Type 0 where
  pub merchant : String
  pub amount : ℤ

pub record TransactionAnalytics : Type 0 where
  pub total_income : ℤ
  pub total_expense : ℤ
  pub net_savings : ℤ
  pub category_totals : List CategoryTotal
  pub time_series : List TimeSeriesPoint
  pub top_merchants : List MerchantTotal

pub record BankStatement : Type 0 where
  pub id : String
  pub user_id : String
  pub bank_account_id : Option String
  pub account_holder : String
  pub iban : String
  pub statement_date : String
  pub statement_no : ℕ
  pub old_balance : ℤ
  pub new_balance : ℤ
  pub currency : String
  pub transactions : List Transaction
  pub imported_at : String
  pub content_hash : String
  pub statement_type : StatementType

pub record BankAccount : Type 0 where
  pub id : String
  pub user_id : String
  pub connection_id : Option String
  pub provider_account_id : String
  pub iban : String
  pub name : String
  pub currency : String
  pub balance : ℤ
  pub last_synced_at : String
  pub account_type : StatementType
  pub is_shared : Bool
  pub shared_with : Option (List String)
  pub owner_id : String

pub record BaseTransaction : Type 0 where
  pub date : String
  pub amount : ℤ

pub record SuggestedSubscription : Type 0 where
  pub merchant_name : String
  pub estimated_amount : ℤ
  pub currency : String
  pub billing_cycle : BillingCycle
  pub billing_interval : ℕ
  pub last_occurrence : String
  pub next_occurrence : String
  pub matching_hashes : List String
  pub base_transactions : List BaseTransaction
  pub category_id : Option String

pub record CancellationLetterResult : Type 0 where
  pub subject : String
  pub body : String

pub record SubscriptionEvent : Type 0 where
  pub id : String
  pub subscription_id : String
  pub user_id : String
  pub event_type : String
  pub title : String
  pub content : String
  pub created_at : String
