-- ===== src/Api/Services/Invoice.antt =====
-- frontend/src/api/services/invoiceService.ts
use cogni_cash.Base.{String, Option, none, some, List, [], ◌∷◌, ◌++◌, if◌then◌else◌}
use cogni_cash.Base.Int.{ℤ, pos, eq_ℤ}
use cogni_cash.Api.Request.{
  Request, Value, Fields, Objects, Part, text, texts, undefined, number, object, objects, none_left,
  one_more, file, amount, stringified, post, put, patch, delete, empty, json, form, send, fetch,
  fetch_blob, optional, or_undefined, nullable, default, append_if,
}

pub record VendorRef : Type 0 where
  pub id : Option String
  pub name : String

-- `category_id` is undefined, null or a text.
pub record InvoiceUpdatePayload : Type 0 where
  pub vendor : Option VendorRef
  pub description : Option String
  pub category_id : Option (Option String)
  pub amount : Option ℤ
  pub currency : Option String
  pub issued_at : Option String
  pub metadata : Option Fields
  pub splits : Option Objects

pub data InvoiceCall : Type 0 where
  fetch_invoices : Option String → InvoiceCall
  fetch_invoice : String → InvoiceCall
  import_invoice : String → Option InvoiceUpdatePayload → InvoiceCall
  manual_import : InvoiceUpdatePayload → InvoiceCall
  update : String → InvoiceUpdatePayload → InvoiceCall
  delete_invoice : String → InvoiceCall
  update_category_bulk : List String → Option String → InvoiceCall
  download_file : String → InvoiceCall
  get_preview_url : String → InvoiceCall
  share : String → String → Option String → InvoiceCall
  revoke_share : String → String → InvoiceCall
  fetch_shares : String → InvoiceCall

abbrev vendor_name : Option VendorRef → Option String
vendor_name none = none
vendor_name (some v) = some v.name

-- `data.vendor?.id || undefined`
abbrev vendor_id : Option VendorRef → Value
vendor_id none = undefined
vendor_id (some v) = or_undefined v.id

abbrev maybe_null : Option (Option String) → Value
maybe_null none = undefined
maybe_null (some o) = nullable o

abbrev flat : Option (Option String) → Option String
flat none = none
flat (some o) = o

abbrev number_or_undefined : Option ℤ → Value
number_or_undefined none = undefined
number_or_undefined (some a) = number a

abbrev object_or_undefined : Option Fields → Value
object_or_undefined none = undefined
object_or_undefined (some o) = object o

abbrev objects_or_undefined : Option Objects → Value
objects_or_undefined none = undefined
objects_or_undefined (some os) = objects os

-- `if (overrides.amount)`
abbrev amount_part : Option ℤ → List (String × Part)
amount_part none = []
amount_part (some a) = if eq_ℤ a (pos 0) then [] else ("amount", amount a) ∷ []

-- `if (overrides.splits && overrides.splits.length > 0)`
abbrev splits_part : Option Objects → List (String × Part)
splits_part none = []
splits_part (some none_left) = []
splits_part (some (one_more o os)) = ("splits", stringified (objects (one_more o os))) ∷ []

abbrev override_parts : Option InvoiceUpdatePayload → List (String × Part)
override_parts none = []
override_parts (some overrides) =
    append_if "vendor_name" (vendor_name overrides.vendor) []
    ++ amount_part overrides.amount
    ++ append_if "currency" overrides.currency []
    ++ append_if "issued_at" overrides.issued_at []
    ++ append_if "category_id" (flat overrides.category_id) []
    ++ splits_part overrides.splits

unfoldable pub invoice_request : InvoiceCall → Request
invoice_request (fetch_invoices source) = fetch ("invoices" ∷ []) (("source", optional source) ∷ [])
invoice_request (fetch_invoice id) = fetch ("invoices" ∷ id ∷ []) []
invoice_request (import_invoice name overrides) =
    send post ("invoices" ∷ "import" ∷ []) (form (("file", file name) ∷ override_parts overrides))
invoice_request (manual_import data_in) = send post ("invoices" ∷ []) (
    json (
      ("vendor_name", optional (vendor_name data_in.vendor))
      ∷ ("description", optional data_in.description)
      ∷ ("category_id", maybe_null data_in.category_id)
      ∷ ("amount", number_or_undefined data_in.amount)
      ∷ ("currency", optional data_in.currency)
      ∷ ("issued_at", optional data_in.issued_at)
      ∷ ("splits", objects_or_undefined data_in.splits)
      ∷ []))
invoice_request (update id data_in) = send put ("invoices" ∷ id ∷ []) (
    json (
      ("vendor_id", vendor_id data_in.vendor)
      ∷ ("vendor_name", optional (vendor_name data_in.vendor))
      ∷ ("description", optional data_in.description)
      ∷ ("category_id", maybe_null data_in.category_id)
      ∷ ("amount", number_or_undefined data_in.amount)
      ∷ ("currency", optional data_in.currency)
      ∷ ("issued_at", optional data_in.issued_at)
      ∷ ("metadata", object_or_undefined data_in.metadata)
      ∷ ("splits", objects_or_undefined data_in.splits)
      ∷ []))
invoice_request (delete_invoice id) = send delete ("invoices" ∷ id ∷ []) empty
invoice_request (update_category_bulk ids category) =
    send patch ("invoices" ∷ "bulk-category" ∷ [])
      (json (("ids", texts ids) ∷ ("category_id", nullable category) ∷ []))
invoice_request (download_file id) = fetch_blob ("invoices" ∷ id ∷ "download" ∷ [])
invoice_request (get_preview_url id) = fetch_blob ("invoices" ∷ id ∷ "download" ∷ [])
invoice_request (share id user permission) =
    send post ("invoices" ∷ id ∷ "share" ∷ [])
      (json (("user_id", text user) ∷ ("permission", text (default "view" permission)) ∷ []))
invoice_request (revoke_share id user) = send delete ("invoices" ∷ id ∷ "share" ∷ user ∷ []) empty
invoice_request (fetch_shares id) = fetch ("invoices" ∷ id ∷ "shares" ∷ []) []
