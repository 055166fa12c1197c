-- ===== src/Types/Ledger.antt =====
-- frontend/src/api/types/transaction.ts. A field that may be absent, null or undefined is an
-- `Option`; amounts are integers of a fixed small unit; dates are texts.
use cogni_cash.Base.{ℕ, String, Bool, Option, List}
use cogni_cash.Base.Int.{ℤ}

-- `'credit' | 'debit'`
pub data TransactionType : Type 0 where
  credit debit : TransactionType

-- `'giro' | 'credit_card' | 'extra_account'`
pub data StatementType : Type 0 where
  giro credit_card extra_account : StatementType

pub record Transaction : Type 0 where
  pub id : String
  pub user_id : String
  pub booking_date : String
  pub valuta_date : String
  pub description : String
  pub counterparty_name : Option String
  pub counterparty_iban : Option String
  pub bank_transaction_code : Option String
  pub mandate_reference : Option String
  pub amount : ℤ
  pub currency : String
  pub base_amount : ℤ
  pub base_currency : String
  pub type : TransactionType
  pub reference : String
  pub category_id : Option String
  pub content_hash : String
  pub is_reconciled : Bool
  pub reconciliation_id : Option String
  pub reviewed : Bool
  pub statement_type : StatementType
  pub bank_statement_id : Option String
  pub location : Option String
  pub is_prediction : Option Bool
  pub skip_forecasting : Option Bool
  pub is_shared : Bool
  pub owner_id : Option String
  pub subscription_id : Option String

pub record TimeSeriesPoint : Type 0 where
  pub date : String
  pub income : ℤ
  pub expense : ℤ
  pub category_amounts : List (String × ℤ)

pub record ForecastPoint : Type 0 where
  pub date : String
  pub expected_balance : ℤ
  pub income : ℤ
  pub expense : ℤ
  pub category_amounts : List (String × ℤ)

-- The fields of a transaction and one more; the probability in percent.
pub record PredictedTransaction : Type 0 where
  pub transaction : Transaction
  pub probability : ℕ

pub record CashFlowForecast : Type 0 where
  pub current_balance : ℤ
  pub time_series : List ForecastPoint
  pub predictions : List PredictedTransaction

-- The score in percent.
pub record ReconciliationPairSuggestion : Type 0 where
  pub source_transaction : Transaction
  pub target_transaction : Transaction
  pub match_score : ℕ

pub record CategorizedTransaction : Type 0 where
  pub hash : String
  pub category : String

pub record JobState : Type 0 where
  pub is_running : Bool
  pub processed : ℕ
  pub total : ℕ
  pub status : String
  pub results : List CategorizedTransaction
