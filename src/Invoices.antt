-- ===== src/Invoices.antt =====
-- frontend/src/pages/InvoicesPage.tsx: the list of invoices with its filters and its URL.
pub mod Url
pub mod Listing
pub mod Form
pub mod Splits
pub mod Updates
pub mod Rollback
pub mod Selection
mod Tests
use cogni_cash.Base.{
  String, ◌==◌, Bool, true, false, not, ◌&&◌, ltb, nat_eq, Option, none, some, List, [], ◌∷◌, map,
  length, if◌then◌else◌, truthy, present, text_or, is_text, text_le, includes, take_text, is_blank,
  filter, find, first, last,
}
use cogni_cash.Base.Int.{ℤ, pos, ◌-ℤ◌, sum_from}
use cogni_cash.Base.Collections.{JsSet, get, toggle, set_of}
use cogni_cash.Base.Sort.{SortDir, asc, desc, directed, sort}
use cogni_cash.Base.Order.{text_compare}
use cogni_cash.Base.Platform.{Platform}
use cogni_cash.Types.{Invoice, Category}
use cogni_cash.Transactions.Page.{Params, set_if}
use cogni_cash.Transactions.Rows.{filter_if, at_least, at_most, parse_amount, booking_day}

pub record FilterState : Type 0 where
  pub search : String
  pub category : String
  pub from : String
  pub to : String
  pub amount_min : String
  pub amount_max : String
  pub source : String

pub data SortKey : Type 0 where
  issued_at vendor category description amount : SortKey

pub record View : Type 0 where
  pub applied : FilterState
  pub sort_key : SortKey
  pub sort_dir : SortDir
  pub show_visuals : Bool

unfoldable pub initial_filters_from_url : Params → FilterState
initial_filters_from_url params = record {
  search = text_or (get params "search") "";
  category = text_or (get params "category") "all";
  from = text_or (get params "from") "";
  to = text_or (get params "to") "";
  amount_min = text_or (get params "amountMin") "";
  amount_max = text_or (get params "amountMax") "";
  source = text_or (get params "source") "all";
}

-- A sort key of the list, or the default.
abbrev pub known_key : String → SortKey
known_key sk =
    if sk == "vendor"
    then vendor
    else if sk == "category"
    then category
    else if sk == "description"
    then description
    else if sk == "amount"
    then amount
    else issued_at

abbrev pub key_text : SortKey → String
key_text issued_at = "issued_at"
key_text vendor = "vendor"
key_text category = "category"
key_text description = "description"
key_text amount = "amount"

abbrev pub dir_text : SortDir → String
dir_text asc = "asc"
dir_text desc = "desc"

unfoldable pub initial_view : Params → View
initial_view params = record {
  applied = initial_filters_from_url params;
  sort_key = known_key (text_or (get params "sortKey") "");
  sort_dir = if is_text (get params "sortDir") "asc" then asc else desc;
  show_visuals = not (is_text (get params "visuals") "false");
}

-- The effect that writes the state into the URL.
unfoldable pub url_of : View → Params
url_of v =
    let f = v.applied in
    let a = set_if (truthy f.search) "search" f.search [] in
    let b = set_if (not (f.category == "all")) "category" f.category a in
    let c = set_if (truthy f.from) "from" f.from b in
    let d = set_if (truthy f.to) "to" f.to c in
    let e = set_if (truthy f.amount_min) "amountMin" f.amount_min d in
    let g = set_if (truthy f.amount_max) "amountMax" f.amount_max e in
    let h = set_if (not (f.source == "all")) "source" f.source g in
    let i = set_if (not (key_text v.sort_key == "issued_at")) "sortKey" (key_text v.sort_key) h in
    let j = set_if (not (dir_text v.sort_dir == "desc")) "sortDir" (dir_text v.sort_dir) i in
    set_if (not v.show_visuals) "visuals" "false" j

abbrev pub in_category : String → Invoice → Bool
in_category c inv =
    if c == "uncategorized" then not (present inv.category_id) else is_text inv.category_id c

-- The owner of the page; `none` until it is fetched.
abbrev pub of_source : String → Option String → Invoice → Bool
of_source source none inv = not (source == "mine")
of_source source (some me) inv =
    if source == "mine" then inv.user_id == me else not (inv.user_id == me)

abbrev pub category_name : List Category → Invoice → String
category_name categories inv = elim (find (λ c. is_text inv.category_id c.id) categories) [
  | none ↦ ""
  | some c ↦ c.name
]

abbrev vendor_name : Invoice → String
vendor_name inv = elim inv.vendor [ none ↦ "" | some v ↦ v.name ]

-- `day(inv.issued_at) >= from`; a comparison with undefined is false.
abbrev pub on_or_after : String → Option String → Bool
on_or_after from none = false
on_or_after from (some d) = text_le from (booking_day d)

abbrev pub on_or_before : String → Option String → Bool
on_or_before to none = false
on_or_before to (some d) = text_le (booking_day d) to

module _ (platform : Platform) (categories : List Category) (me : Option String) where
  open platform use {to_lower, locale_compare}

  abbrev pub is_hit : String → Invoice → Bool
  is_hit q inv =
      if includes (to_lower (vendor_name inv)) q
      then true
      else includes (to_lower (text_or inv.description "")) q

  unfoldable pub filter_invoices : View → List Invoice → List Invoice
  filter_invoices v invoices =
      let f = v.applied in
      let a = filter_if (not (is_blank f.search)) (is_hit (to_lower f.search)) invoices in
      let b = filter_if (not (f.category == "all")) (in_category f.category) a in
      let c = filter_if (f.source == "mine") (of_source "mine" me) b in
      let d = filter_if (f.source == "shared") (of_source "shared" me) c in
      let e = filter_if (truthy f.from) (λ inv. on_or_after f.from inv.issued_at) d in
      let g = filter_if (truthy f.to) (λ inv. on_or_before f.to inv.issued_at) e in
      let h =
        filter_if (not (f.amount_min == ""))
          (λ inv. at_least (parse_amount platform f.amount_min) inv.amount) g in
      filter_if (not (f.amount_max == ""))
        (λ inv. at_most (parse_amount platform f.amount_max) inv.amount) h

  abbrev pub compare_on : SortKey → Invoice → Invoice → ℤ
  compare_on issued_at a b = locale_compare (text_or a.issued_at "") (text_or b.issued_at "")
  compare_on vendor a b = locale_compare (vendor_name a) (vendor_name b)
  compare_on category a b = locale_compare (category_name categories a) (category_name categories b)
  compare_on description a b = locale_compare (text_or a.description "") (text_or b.description "")
  compare_on amount a b = a.amount -ℤ b.amount

  abbrev pub invoice_order : View → Invoice → Invoice → ℤ
  invoice_order v a b = directed v.sort_dir (compare_on v.sort_key a b)

  unfoldable pub filtered_invoices : View → List Invoice → List Invoice
  unfolding sort
  filtered_invoices v invoices = sort (invoice_order v) (filter_invoices v invoices)

unfoldable pub total_amount : List Invoice → ℤ
unfolding sum_from
total_amount filtered = sum_from (λ (inv : Invoice). inv.amount) (pos 0) filtered

unfoldable pub toggle_select_invoice : String → JsSet → JsSet
unfolding toggle
toggle_select_invoice id selected = toggle id selected

unfoldable pub toggle_select_all_invoices : List Invoice → JsSet → JsSet
unfolding set_of
toggle_select_all_invoices filtered selected =
    if nat_eq (length selected) (length filtered) && ltb 0 (length filtered)
    then []
    else set_of (map (λ (inv : Invoice). inv.id) filtered)

-- The known days of the invoices, in order, and the first and the last of them.
unfoldable pub invoice_days : List Invoice → List String
unfolding take_text sort
invoice_days invoices =
    sort text_compare
      (filter truthy (map (λ (inv : Invoice). take_text 10 (text_or inv.issued_at "")) invoices))

unfoldable pub min_invoice_date : List Invoice → String
unfolding invoice_days
min_invoice_date invoices = text_or (first (invoice_days invoices)) ""

unfoldable pub max_invoice_date : List Invoice → String
unfolding invoice_days
max_invoice_date invoices = text_or (last (invoice_days invoices)) ""
