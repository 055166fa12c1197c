-- ===== src/Invoices/Form.antt =====
-- frontend/src/components/invoices/InvoiceForm.tsx: the form of an invoice with its splits.
use cogni_cash.Base.{
  ℕ, zero, suc, String, ◌==◌, Bool, Option, none, some, List, [], ◌∷◌, ◌++◌, map, if◌then◌else◌,
  truthy, text_or, take_text, filter, present,
}
use cogni_cash.Base.Int.{ℤ, pos, ◌-ℤ◌, lt_ℤ, sum_from}
use cogni_cash.Base.Platform.{Platform}
use cogni_cash.Types.{Invoice, InvoiceSplit, Vendor}
use cogni_cash.Transactions.Rows.{parse_amount}

-- `Partial<InvoiceSplit>`
pub record SplitDraft : Type 0 where
  pub id : Option String
  pub invoice_id : Option String
  pub category_id : Option String
  pub amount : Option ℤ
  pub base_amount : Option ℤ
  pub description : Option String

pub record Form : Type 0 where
  pub vendor_name : String
  pub issued_at : String
  pub amount : String
  pub currency : String
  pub category_id : String
  pub description : String
  pub splits : List SplitDraft

abbrev draft_of : InvoiceSplit → SplitDraft
draft_of s = record {
  id = some s.id;
  invoice_id = some s.invoice_id;
  category_id = some s.category_id;
  amount = some s.amount;
  base_amount = some s.base_amount;
  description = some s.description;
}

abbrev drafts_of : Option (List InvoiceSplit) → List SplitDraft
drafts_of none = []
drafts_of (some splits) = map draft_of splits

abbrev vendor_text : Option Vendor → String
vendor_text none = ""
vendor_text (some v) = v.name

abbrev day_of : Option String → String
day_of none = ""
day_of (some d) = if truthy d then take_text 10 d else ""

-- The form of an invoice that is edited, with the decimal text of a number.
unfoldable pub initial_form : (ℤ → String) → Invoice → Form
unfolding take_text
initial_form amount_text initial_data = record {
  vendor_name = vendor_text initial_data.vendor;
  issued_at = day_of initial_data.issued_at;
  amount = amount_text initial_data.amount;
  currency = text_or (some initial_data.currency) "EUR";
  category_id = text_or initial_data.category_id "";
  description = text_or initial_data.description "";
  splits = drafts_of initial_data.splits;
}

-- `Number(s.amount) || 0`
abbrev pub number_or_zero : Option ℤ → ℤ
number_or_zero none = pos 0
number_or_zero (some a) = a

abbrev pub split_amount : SplitDraft → ℤ
split_amount s = number_or_zero s.amount

unfoldable pub split_total : List SplitDraft → ℤ
unfolding sum_from
split_total splits = sum_from split_amount (pos 0) splits

unfoldable pub handle_remove_split : ℕ → List SplitDraft → List SplitDraft
handle_remove_split index [] = []
handle_remove_split zero (s ∷ splits) = splits
handle_remove_split (suc index) (s ∷ splits) = s ∷ handle_remove_split index splits

-- The three inputs of a split.
pub data SplitChange : Type 0 where
  to_category : String → SplitChange
  to_description : String → SplitChange
  -- `parseFloat(text) || 0`
  to_amount : Option ℤ → SplitChange

abbrev pub changed : SplitChange → SplitDraft → SplitDraft
changed (to_category c) s = record s { category_id = some c }
changed (to_description d) s = record s { description = some d }
changed (to_amount parsed) s = record s { amount = some (number_or_zero parsed) }

unfoldable pub handle_update_split : ℕ → SplitChange → List SplitDraft → List SplitDraft
handle_update_split index change [] = []
handle_update_split zero change (s ∷ splits) = changed change s ∷ splits
handle_update_split (suc index) change (s ∷ splits) = s ∷ handle_update_split index change splits

-- What is submitted.
pub record Submitted : Type 0 where
  pub vendor_id : String
  pub vendor_name : String
  pub issued_at : String
  pub amount : ℤ
  pub currency : String
  pub category_id : Option String
  pub description : String
  pub splits : List SplitDraft

abbrev pub with_category : SplitDraft → Bool
with_category s = present s.category_id

unfoldable pub sent_splits : List SplitDraft → List SplitDraft
sent_splits splits =
    map (λ (s : SplitDraft). record s { amount = some (number_or_zero s.amount) })
      (filter with_category splits)

abbrev vendor_id_of : Option Vendor → String
vendor_id_of none = ""
vendor_id_of (some v) = v.id

abbrev pub iso_or : Option String → String → String
iso_or none fallback = fallback
iso_or (some iso) fallback = iso

module _ (platform : Platform) where
  unfoldable pub total_amount : String → ℤ
  total_amount amount = number_or_zero (parse_amount platform amount)

  unfoldable pub remaining_amount : Form → ℤ
  unfolding total_amount split_total ◌-ℤ◌
  remaining_amount form = total_amount form.amount -ℤ split_total form.splits

  abbrev pub new_split : ℤ → SplitDraft
  new_split remaining = record {
    id = none;
    invoice_id = none;
    category_id = some "";
    amount = some (if lt_ℤ (pos 0) remaining then remaining else pos 0);
    base_amount = none;
    description = some "";
  }

  unfoldable pub handle_add_split : Form → Form
  unfolding remaining_amount
  handle_add_split form = record form {
    splits = form.splits ++ (new_split (remaining_amount form) ∷ []);
  }

  -- With `toISOString` of a valid date text, and the present time as such a text.
  unfoldable pub handle_submit : (String → Option String) → String → Invoice → Form → Submitted
  unfolding total_amount sent_splits
  handle_submit to_iso now initial_data form =
      let iso_date = text_or initial_data.issued_at now in
      record {
        vendor_id = vendor_id_of initial_data.vendor;
        vendor_name = form.vendor_name;
        issued_at =
            if truthy form.issued_at then iso_or (to_iso form.issued_at) iso_date else iso_date;
        amount = total_amount form.amount;
        currency = form.currency;
        category_id = if form.category_id == "" then none else some form.category_id;
        description = form.description;
        splits = sent_splits form.splits;
      }
