-- ===== src/Forecasting/Planned.antt =====
-- frontend/src/components/forecasting/PlannedTransactionModal.tsx and PlannedTransactionsList.tsx: the
-- form of a planned transaction, which stays mounted while it is closed, and what it sends.
use cogni_cash.Base.{
  ℕ, String, Bool, true, false, ◌&&◌, Option, none, some, List, [], ◌∷◌, if◌then◌else◌, truthy,
  text_or, split_char, first, ltb,
}
use cogni_cash.Base.Int.{ℤ, pos}
use cogni_cash.Types.{PlannedTransaction, SchedulingStrategy, fixed_day, last_bank_day}
use cogni_cash.Api.Request.{Value, text, number, null, nullable, optional}
use cogni_cash.Api.Services.Others.{
  ForecastingCall, create_planned_transaction, update_planned_transaction,
  delete_planned_transaction,
}

pub record Form : Type 0 where
  pub amount : String
  pub currency : String
  pub date : String
  pub description : String
  pub category_id : String
  pub bank_account_id : String
  pub interval_months : ℕ
  pub scheduling_strategy : SchedulingStrategy
  pub end_date : String

-- The list's state with that of its form.
pub record Dialog : Type 0 where
  pub is_modal_open : Bool
  pub editing_tx : Option PlannedTransaction
  pub form : Form

abbrev pub empty_form : Form
empty_form = record {
  amount = "";
  currency = "EUR";
  date = "";
  description = "";
  category_id = "";
  bank_account_id = "";
  interval_months = 0;
  scheduling_strategy = fixed_day;
  end_date = "";
}

-- `s.split('T')[0]`
abbrev pub day_part : String → String
day_part s = text_or (first (split_char b'T' "" s)) ""

abbrev pub end_day : Option String → String
end_day none = ""
end_day (some s) = if truthy s then day_part s else ""

-- With the decimal text of a number, and today's date.
module _ (amount_text : ℤ → String) (today : String) where
  -- The effect of the form, when it is open.
  unfoldable pub fill_form : Option PlannedTransaction → Form → Form
  unfolding split_char
  fill_form none form = record form {
    amount = "";
    currency = "EUR";
    date = today;
    description = "";
    category_id = "";
    interval_months = 0;
    scheduling_strategy = fixed_day;
    end_date = "";
  }
  fill_form (some tx) form = record {
    amount = amount_text tx.amount;
    currency = text_or (some tx.currency) "EUR";
    date = day_part tx.date;
    description = tx.description;
    category_id = tx.category_id;
    bank_account_id = text_or tx.bank_account_id "";
    interval_months = tx.interval_months;
    scheduling_strategy = tx.scheduling_strategy;
    end_date = end_day tx.end_date;
  }

  -- The button that adds a transaction; opening the modal runs the effect.
  unfoldable pub handle_new : Dialog → Dialog
  unfolding fill_form
  handle_new s = record s { is_modal_open = true; editing_tx = none; form = fill_form none s.form }

  unfoldable pub handle_edit : PlannedTransaction → Dialog → Dialog
  unfolding fill_form
  handle_edit tx s = record s {
    is_modal_open = true;
    editing_tx = some tx;
    form = fill_form (some tx) s.form;
  }

unfoldable pub close_modal : Dialog → Dialog
close_modal s = record s { is_modal_open = false }

-- What is sent; the amount is NaN, and so null, where the text is no number.
pub record Payload : Type 0 where
  pub amount : Option ℤ
  pub currency : String
  pub date : String
  pub description : String
  pub category_id : Option String
  pub bank_account_id : Option String
  pub interval_months : ℕ
  pub scheduling_strategy : SchedulingStrategy
  pub end_date : Option String

-- `s || null`
abbrev pub or_null : String → Option String
or_null s = if truthy s then some s else none

-- With `parseFloat` and `new Date(s).toISOString()`; the two fields for dates give valid ones or the
-- empty text, and the form is not submitted without the first, so that the latter does not throw.
module _ (parse_float : String → Option ℤ) (to_iso : String → String) where
  unfoldable pub handle_submit : Form → Payload
  handle_submit form = record {
    amount = parse_float form.amount;
    currency = form.currency;
    date = to_iso form.date;
    description = form.description;
    category_id = or_null form.category_id;
    bank_account_id = or_null form.bank_account_id;
    interval_months = form.interval_months;
    scheduling_strategy = form.scheduling_strategy;
    end_date =
        if ltb 0 form.interval_months && truthy form.end_date
        then some (to_iso form.end_date)
        else none;
  }

abbrev strategy_text : SchedulingStrategy → String
strategy_text fixed_day = "fixed_day"
strategy_text last_bank_day = "last_bank_day"

abbrev number_or_null : Option ℤ → Value
number_or_null none = null
number_or_null (some a) = number a

abbrev pub payload_fields : Payload → List (String × Value)
payload_fields p =
    ("amount", number_or_null p.amount)
    ∷ ("currency", text p.currency)
    ∷ ("date", text p.date)
    ∷ ("description", text p.description)
    ∷ ("category_id", nullable p.category_id)
    ∷ ("bank_account_id", nullable p.bank_account_id)
    ∷ ("interval_months", number (pos p.interval_months))
    ∷ ("scheduling_strategy", text (strategy_text p.scheduling_strategy))
    ∷ ("end_date", optional p.end_date)
    ∷ []

unfoldable pub handle_save : Option PlannedTransaction → Payload → ForecastingCall
handle_save (some tx) data_in = update_planned_transaction tx.id (payload_fields data_in)
handle_save none data_in = create_planned_transaction (payload_fields data_in)

-- With the user's answer to the question whether to delete.
unfoldable pub handle_delete : Bool → String → Option ForecastingCall
handle_delete confirmed id = if confirmed then some (delete_planned_transaction id) else none
