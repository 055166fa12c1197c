-- ===== src/Invoices/Tests.antt =====
-- The theorems on invoices at concrete ones.
use mathlib.Core.List.{Perm}
use cogni_cash.Base.{◌≡◌, ◌==◌, true, false, none, some, [], ◌∷◌, filter, List, refl, if◌then◌else◌}
use cogni_cash.Base.Int.{pos, sum_of, lt_ℤ}
use cogni_cash.Base.Sort.{IsSorted, desc}
use cogni_cash.Base.Platform.{Platform, plain_platform}
use cogni_cash.Types.{Invoice}
use cogni_cash.Transactions.Samples.{groceries}
use cogni_cash.Invoices.{
  View, amount, initial_view, url_of, filtered_invoices, invoice_order, total_amount,
}
use cogni_cash.Invoices.Url.{with_choices, initial_view-url_of}
use cogni_cash.Invoices.Listing.{matches, filtered_invoices-IsSorted}
use cogni_cash.Transactions.Cache.Client.{key_eq}
use cogni_cash.Transactions.Cache.Table.{Table, table_client, find_data}
use cogni_cash.Invoices.Form.{Form, SplitDraft, handle_add_split, remaining_amount}
use cogni_cash.Invoices.Splits.{remaining_amount-handle_add_split}
use cogni_cash.Invoices.Updates.{invoices_key, batch_category, on_mutate, on_error}
use cogni_cash.Invoices.Updates.{Page, initial_filters}
use cogni_cash.Invoices.Selection.{
  row_clicked, filters_applied, selected, after_clicks, spec_after, selected-after_clicks,
}
use cogni_cash.Invoices.Rollback.{on_error_restores, on_error_elsewhere}

abbrev power_bill : Invoice
power_bill = record {
  id = "i1";
  user_id = "u1";
  vendor = some (record { id = "v1"; name = "Power" });
  category_id = some "c1";
  amount = pos 8900;
  currency = "EUR";
  base_amount = pos 8900;
  base_currency = "EUR";
  issued_at = some "2024-03-01T00:00:00Z";
  description = none;
  is_shared = false;
  shared_with = none;
  owner_id = "u1";
  splits = none;
}

abbrev market_bill : Invoice
market_bill = record power_bill { id = "i2"; vendor = none; amount = pos 2300 }

abbrev by_amount : View
by_amount = record {
  applied = record {
    search = "";
    category = "c1";
    from = "2024-01-01";
    to = "";
    amount_min = "";
    amount_max = "";
    source = "mine";
  };
  sort_key = amount;
  sort_dir = desc;
  show_visuals = true;
}

initial_view-url_of_example : initial_view (url_of by_amount) ≡ with_choices by_amount
initial_view-url_of_example = initial_view-url_of by_amount

filtered_invoices-IsSorted_example :
    Perm
      (filtered_invoices plain_platform
        (groceries ∷ [])
        (some "u1")
        by_amount
        (market_bill ∷ power_bill ∷ []))
      (filter
        (matches plain_platform (groceries ∷ []) (some "u1") by_amount)
        (market_bill ∷ power_bill ∷ []))
    × IsSorted (invoice_order plain_platform (groceries ∷ []) (some "u1") by_amount) (
        filtered_invoices plain_platform
          (groceries ∷ [])
          (some "u1")
          by_amount
          (market_bill ∷ power_bill ∷ []))
    × (total_amount (
          filtered_invoices plain_platform
            (groceries ∷ [])
            (some "u1")
            by_amount
            (market_bill ∷ power_bill ∷ []))
        ≡ sum_of
            (λ (inv : Invoice). inv.amount)
            (filter
              (matches plain_platform (groceries ∷ []) (some "u1") by_amount)
              (market_bill ∷ power_bill ∷ [])))
filtered_invoices-IsSorted_example =
    filtered_invoices-IsSorted plain_platform (groceries ∷ []) (some "u1") by_amount
      (market_bill ∷ power_bill ∷ [])

-- The lists of two sources.
abbrev cached : Table (List Invoice)
cached =
    (invoices_key "all", power_bill ∷ market_bill ∷ [])
    ∷ (invoices_key "mine", power_bill ∷ [])
    ∷ []

on_error_restores_example :
    find_data
      (on_error
        (table_client (List Invoice))
        "all"
        (on_mutate (table_client (List Invoice)) "all" (batch_category ("i2" ∷ []) none) cached).0
        (on_mutate (table_client (List Invoice)) "all" (batch_category ("i2" ∷ []) none) cached).1)
      (invoices_key "mine")
    ≡ find_data cached (invoices_key "mine")
on_error_restores_example =
    on_error_restores (table_client (List Invoice)) "all" (batch_category ("i2" ∷ []) none) cached
      (invoices_key "mine")

on_error_elsewhere_example :
    find_data
      (on_error
        (table_client (List Invoice))
        "mine"
        (on_mutate (table_client (List Invoice)) "all" (batch_category ("i2" ∷ []) none) cached).0
        (on_mutate (table_client (List Invoice)) "all" (batch_category ("i2" ∷ []) none) cached).1)
      (invoices_key "mine")
    ≡ some (power_bill ∷ market_bill ∷ [])
unfolding key_eq
on_error_elsewhere_example =
    on_error_elsewhere (table_client (List Invoice)) "all" (batch_category ("i2" ∷ []) none) cached
      "mine" (power_bill ∷ market_bill ∷ []) refl

abbrev half : SplitDraft
half = record {
  id = none;
  invoice_id = none;
  category_id = some "c1";
  amount = some (pos 4000);
  base_amount = none;
  description = none;
}

-- A platform that reads one amount.
abbrev reading : Platform
reading = record plain_platform { parse_float = λ s. if s == "89" then some (pos 8900) else none }

abbrev splitting : Form
splitting = record {
  vendor_name = "Power";
  issued_at = "2024-03-01";
  amount = "89";
  currency = "EUR";
  category_id = "";
  description = "";
  splits = half ∷ [];
}

remaining_amount-handle_add_split_example :
    remaining_amount reading (handle_add_split reading splitting) ≡ (
      if lt_ℤ (pos 0) (remaining_amount reading splitting)
      then pos 0
      else remaining_amount reading splitting)
remaining_amount-handle_add_split_example = remaining_amount-handle_add_split reading splitting

abbrev listing : Page
listing = record {
  draft_filters = initial_filters;
  applied_filters = initial_filters;
  sort_key = amount;
  sort_dir = desc;
  selected_ids = "i1" ∷ [];
  show_manual_import = false;
  editing_invoice = none;
  previewing_invoice = none;
  preview_info = none;
  is_preview_loading = none;
}

selected-after_clicks_example :
    selected (after_clicks (row_clicked "i2" ∷ filters_applied ∷ row_clicked "i1" ∷ []) listing)
    ≡ spec_after (row_clicked "i2" ∷ filters_applied ∷ row_clicked "i1" ∷ []) (selected listing)
selected-after_clicks_example =
    selected-after_clicks (row_clicked "i2" ∷ filters_applied ∷ row_clicked "i1" ∷ []) listing
