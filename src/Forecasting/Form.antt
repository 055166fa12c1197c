-- ===== src/Forecasting/Form.antt =====
-- What the form of a planned transaction sends.
use cogni_cash.Base.{
  String, ◌≡◌, refl, ◌&&◌, Option, none, some, if◌then◌else◌, truthy, text_or, arith, ltb, eq_iff,
}
use cogni_cash.Base.Int.{ℤ}
use cogni_cash.Types.{PlannedTransaction}
use cogni_cash.Api.Services.Others.{update_planned_transaction}
use cogni_cash.Forecasting.Planned.{
  Dialog, Payload, day_part, end_day, fill_form, handle_new, handle_edit, close_modal,
  handle_submit, handle_save, or_null, payload_fields,
}

-- An account that is set.
abbrev set_account : Option String → Option String
set_account none = none
set_account (some s) = or_null s

account_back : (o : Option String) → or_null (text_or o "") ≡ set_account o
account_back none = refl
account_back (some s) = ground (arith, eq_iff s "")

module _ (amount_text : ℤ → String) (parse_float : String → Option ℤ) (to_iso : String → String)
    (today : String) (s : Dialog) (tx : PlannedTransaction) where
  -- What a planned transaction looks like when it is sent unchanged.
  abbrev pub unchanged : Payload
  unchanged = record {
    amount = some tx.amount;
    currency = text_or (some tx.currency) "EUR";
    date = to_iso (day_part tx.date);
    description = tx.description;
    category_id = or_null tx.category_id;
    bank_account_id = set_account tx.bank_account_id;
    interval_months = tx.interval_months;
    scheduling_strategy = tx.scheduling_strategy;
    end_date =
        if ltb 0 tx.interval_months && truthy (end_day tx.end_date)
        then some (to_iso (end_day tx.end_date))
        else none;
  }

  -- If the amount's text is read back as the amount, opening a planned transaction and saving it
  -- unchanged sends an update of that transaction with its own amount, description, category,
  -- account, interval and strategy, and with its dates written as ISO texts of their day.
  pub handle_save-handle_edit :
      parse_float (amount_text tx.amount) ≡ some tx.amount
      → let opened = handle_edit amount_text today tx s in
        handle_save opened.editing_tx (handle_submit parse_float to_iso opened.form)
        ≡ update_planned_transaction tx.id (payload_fields unchanged)
  unfolding handle_save handle_edit handle_submit fill_form
  handle_save-handle_edit back = rw (back, account_back tx.bank_account_id) refl

  -- A new planned transaction that is started after another one was opened is saved with the
  -- account of that other one, although its category is reset.
  pub handle_new-handle_edit :
      let edited = close_modal (handle_edit amount_text today tx s) in
      let created = handle_submit parse_float to_iso (handle_new amount_text today edited).form in
      (created.bank_account_id ≡ set_account tx.bank_account_id) × (created.category_id ≡ none)
  unfolding handle_new handle_edit handle_submit close_modal fill_form
  handle_new-handle_edit = (account_back tx.bank_account_id, refl)
