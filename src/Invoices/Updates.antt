-- ===== src/Invoices/Updates.antt =====
-- The handlers and the mutations of frontend/src/pages/InvoicesPage.tsx, with their optimistic updates
-- of the one cached list that the page shows.
use cogni_cash.Base.{
  String, ◌==◌, Bool, false, Option, none, some, List, [], ◌∷◌, map, if◌then◌else◌,
}
use cogni_cash.Base.Int.{ℤ}
use cogni_cash.Base.Collections.{JsSet, has, set_of}
use cogni_cash.Base.Sort.{SortDir, asc, desc}
use cogni_cash.Types.{Invoice, InvoiceSplit, Vendor}
use cogni_cash.Transactions.Cache.Client.{QueryClient, QueryKey}
use cogni_cash.Api.Services.Invoice.{
  InvoiceCall, InvoiceUpdatePayload, import_invoice, manual_import,
}
use cogni_cash.Invoices.{FilterState, SortKey, key_text}

-- What an update gives a new value; a field that the object does not have stays. A field that it has
-- with the value `undefined` is not modelled: the form sets each field that it sends.
pub record InvoiceUpdate : Type 0 where
  pub vendor : Option Vendor
  pub description : Option String
  pub category_id : Option (Option String)
  pub amount : Option ℤ
  pub currency : Option String
  pub issued_at : Option String
  pub splits : Option (List InvoiceSplit)

abbrev given : {A : Type 0} → Option A → A → A
given none old = old
given (some new) old = new

abbrev given_some : {A : Type 0} → Option A → Option A → Option A
given_some none old = old
given_some (some new) old = some new

-- `{ ...inv, ...data }`
abbrev pub merge : InvoiceUpdate → Invoice → Invoice
merge data_in inv = record inv {
  vendor = given_some data_in.vendor inv.vendor;
  description = given_some data_in.description inv.description;
  category_id = given data_in.category_id inv.category_id;
  amount = given data_in.amount inv.amount;
  currency = given data_in.currency inv.currency;
  issued_at = given_some data_in.issued_at inv.issued_at;
  splits = given_some data_in.splits inv.splits;
}

-- The two mutations that update the cache at once.
pub data InvoiceMutation : Type 0 where
  update_invoice : String → InvoiceUpdate → InvoiceMutation
  batch_category : List String → Option String → InvoiceMutation

unfoldable pub update_invoice_row : InvoiceMutation → Invoice → Invoice
unfolding has set_of
update_invoice_row (update_invoice id data_in) inv = if inv.id == id then merge data_in inv else inv
update_invoice_row (batch_category ids category) inv =
    if has (set_of ids) inv.id then record inv { category_id = category } else inv

abbrev pub invoices_key : String → QueryKey
invoices_key source = "invoices" ∷ source ∷ []

module _ (client : QueryClient (List Invoice)) where
  open client use {State, data_at, set_query_data}

  abbrev pub write_if : QueryKey → Option (List Invoice) → State → State
  write_if key none s = s
  write_if key (some rows) s = set_query_data key (some rows) s

  abbrev pub updated_rows : InvoiceMutation → Option (List Invoice) → Option (List Invoice)
  updated_rows m none = none
  updated_rows m (some previous) = some (map (update_invoice_row m) previous)

  -- `onMutate`, with the source of the applied filters: the list as it was, and the updated cache.
  unfoldable pub on_mutate : String → InvoiceMutation → State → Option (List Invoice) × State
  unfolding update_invoice_row
  on_mutate source m s =
      let previous_invoices = data_at s (invoices_key source) in
      (previous_invoices, write_if (invoices_key source) (updated_rows m previous_invoices) s)

  -- `onError`, with the source of the filters that are applied by then.
  unfoldable pub on_error : String → Option (List Invoice) → State → State
  on_error source previous_invoices s = write_if (invoices_key source) previous_invoices s

-- The rest of the page's state.
pub record Page : Type 0 where
  pub draft_filters : FilterState
  pub applied_filters : FilterState
  pub sort_key : SortKey
  pub sort_dir : SortDir
  pub selected_ids : JsSet
  pub show_manual_import : Bool
  pub editing_invoice : Option Invoice
  pub previewing_invoice : Option Invoice
  pub preview_info : Option String
  pub is_preview_loading : Option String

abbrev pub initial_filters : FilterState
initial_filters = record {
  search = "";
  category = "all";
  from = "";
  to = "";
  amount_min = "";
  amount_max = "";
  source = "all";
}

-- The preview is known by its URL, which is revoked when it closes.
unfoldable pub close_preview : Page → Option String × Page
close_preview p = (p.preview_info, record p { preview_info = none; previewing_invoice = none })

-- The state after a mutation of the cached list succeeded.
unfoldable pub on_success : InvoiceMutation → Page → Page
unfolding close_preview
on_success (update_invoice id data_in) p =
    (close_preview (record p { editing_invoice = none; previewing_invoice = none })).1
on_success (batch_category ids category) p = record p { selected_ids = [] }

unfoldable pub deleted : Page → Page
deleted p = record p { selected_ids = [] }

unfoldable pub manually_imported : Page → Page
manually_imported p = record p { show_manual_import = false }

-- The import of the first of the dropped or chosen files, a file being known by its name.
unfoldable pub handle_files : List String → Option InvoiceCall
handle_files [] = none
handle_files (file ∷ files) = some (import_invoice file none)

-- With a file it is imported under the entered data, else the data alone are.
unfoldable pub manual_import_call : Option String → InvoiceUpdatePayload → InvoiceCall
manual_import_call (some file) data_in = import_invoice file (some data_in)
manual_import_call none data_in = manual_import data_in

-- The preview that was fetched, or none where fetching failed and the user is told so.
unfoldable pub handle_preview : Invoice → Option String → Page → Page
handle_preview inv (some url) p = record p {
  preview_info = some url;
  previewing_invoice = some inv;
  is_preview_loading = none;
}
handle_preview inv none p = record p { is_preview_loading = none }

abbrev flip : SortDir → SortDir
flip asc = desc
flip desc = asc

unfoldable pub toggle_sort : SortKey → Page → Page
toggle_sort key p =
    if key_text p.sort_key == key_text key
    then record p { sort_dir = flip p.sort_dir }
    else record p { sort_key = key; sort_dir = desc }

unfoldable pub handle_apply_filters : Page → Page
handle_apply_filters p = record p { applied_filters = p.draft_filters; selected_ids = [] }

unfoldable pub clear_filters : Page → Page
clear_filters p = record p {
  draft_filters = initial_filters;
  applied_filters = initial_filters;
  selected_ids = [];
}
