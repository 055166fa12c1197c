-- ===== src/Forecasting/Tests.antt =====
-- The theorems about forecasts at concrete predictions.
use cogni_cash.Base.{ℕ, String, ◌==◌, ◌≡◌, refl, false, Option, none, some, if◌then◌else◌}
use cogni_cash.Base.Int.{ℤ, negsuc}
use cogni_cash.Types.{PredictedTransaction, PlannedTransaction, PlannedStatus, fixed_day}
use cogni_cash.Api.Services.Others.{update_planned_transaction}
use cogni_cash.Transactions.Samples.{salary, row}
use cogni_cash.Forecasting.Planned.{
  Dialog, empty_form, handle_new, handle_edit, close_modal, handle_submit, handle_save,
  payload_fields,
}
use cogni_cash.Forecasting.Form.{unchanged, handle_save-handle_edit, handle_new-handle_edit}

abbrev expected : PredictedTransaction
expected = record { transaction = salary; probability = 90 }

abbrev budget : PredictedTransaction
budget = record {
  transaction = row "v1" "2024-03-31" "Variable Budget: Food" (negsuc 29999);
  probability = 80;
}

abbrev month_of : String → Option (ℕ × ℕ)
month_of s = some (2024, 3)

abbrev holiday : PlannedTransaction
holiday = record {
  id = "pt1";
  user_id = "u1";
  amount = negsuc 99;
  currency = "EUR";
  base_amount = negsuc 99;
  base_currency = "EUR";
  date = "2024-08-01T00:00:00Z";
  description = "Holiday";
  category_id = "c1";
  bank_account_id = some "a1";
  status = PlannedStatus.pending;
  matched_transaction_id = none;
  interval_months = 0;
  scheduling_strategy = fixed_day;
  end_date = none;
  is_superseded = false;
  is_shared = false;
  created_at = "2024-01-01";
}

abbrev closed : Dialog
closed = record { is_modal_open = false; editing_tx = none; form = empty_form }

-- A printer and a reader of one amount.
abbrev amount_text : ℤ → String
amount_text a = "-100"

abbrev parse_one : String → Option ℤ
parse_one s = if s == "-100" then some (negsuc 99) else none

abbrev same : String → String
same s = s

abbrev after_edit : Dialog
after_edit = close_modal (handle_edit amount_text "2024-03-01" holiday closed)

handle_new-handle_edit_example :
    ((handle_submit parse_one same
        (handle_new amount_text "2024-03-01" after_edit).form).bank_account_id
      ≡ some "a1")
    × ((handle_submit parse_one same
          (handle_new amount_text "2024-03-01" after_edit).form).category_id
        ≡ none)
handle_new-handle_edit_example =
    handle_new-handle_edit amount_text parse_one same "2024-03-01" closed holiday

handle_save-handle_edit_example :
    handle_save
      (some holiday)
      (handle_submit parse_one same (handle_edit amount_text "2024-03-01" holiday closed).form)
    ≡ update_planned_transaction "pt1"
        (payload_fields (unchanged amount_text parse_one same "2024-03-01" closed holiday))
unfolding handle_edit
handle_save-handle_edit_example =
    handle_save-handle_edit amount_text parse_one same "2024-03-01" closed holiday refl
