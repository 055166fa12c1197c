-- ===== src/Transactions/Rows.antt =====
-- The rows that the transactions page shows: `toDay`, the date range and `filtered` of
-- frontend/src/pages/TransactionsPage.tsx.
pub mod Matching
pub mod Shown
pub mod Ordered
pub mod Range
pub mod Notations
pub mod Undated
use cogni_cash.Base.{
  ℕ, String, ◌==◌, Bool, true, false, not, ◌&&◌, ◌||◌, Option, none, some, List, [], ◌∷◌, map,
  if◌then◌else◌, truthy, present, text_or, is_text, text_le, includes, take_text, is_blank,
  replace_char, split_char, has_shape, is_shape, ltb, filter, first, last,
}
use Prim.Native.String
use cogni_cash.Base.Int.{ℤ, pos, neg, ◌-ℤ◌, le_ℤ, lt_ℤ}
use cogni_cash.Base.Sort.{SortDir, asc, desc, directed, sort}
use cogni_cash.Base.Order.{text_compare}
use cogni_cash.Base.Platform.{Platform}
use cogni_cash.Types.{Transaction}
use cogni_cash.Transactions.Page.{FilterState, Page}

-- `${y}-${m}-${d}` of the three parts of a split text.
abbrev pub joined_ymd : List String → String
joined_ymd (d ∷ m ∷ y ∷ rest) = String.◌++◌ y (String.◌++◌ "-" (String.◌++◌ m (String.◌++◌ "-" d)))
joined_ymd parts = ""

-- The calendar day of a booking date, or the empty text where the format is not known.
unfoldable pub to_day : String → String
unfolding has_shape is_shape take_text split_char
to_day date =
    if not (truthy date)
    then ""
    else if has_shape "dddd-dd-ddT" date
    then take_text 10 date
    else if is_shape "dddd-dd-dd" date
    then date
    else if is_shape "dd.dd.dddd" date
    then joined_ymd (split_char b'.' "" date)
    else ""

abbrev pub or_empty : Option String → String
or_empty none = ""
or_empty (some s) = s

-- The known days of the rows, in order.
unfoldable pub days : List Transaction → List String
unfolding to_day sort
days all_txns = sort text_compare (filter truthy (map (λ t. to_day t.booking_date) all_txns))

unfoldable pub min_date : List Transaction → String
unfolding days
min_date all_txns = or_empty (first (days all_txns))

unfoldable pub max_date : List Transaction → String
unfolding days
max_date all_txns = or_empty (last (days all_txns))

unfoldable pub booking_day : String → String
unfolding take_text
booking_day d = if ltb 10 (String.count d) then take_text 10 d else d

-- `rows = rows.filter(keep)` under a condition.
unfoldable pub filter_if : {A : Type 0} → Bool → (A → Bool) → List A → List A
filter_if test keep rows = if test then filter keep rows else rows

-- Comparisons with NaN are false.
abbrev pub at_least : Option ℤ → ℤ → Bool
at_least none amount = false
at_least (some bound) amount = le_ℤ bound amount

abbrev pub at_most : Option ℤ → ℤ → Bool
at_most none amount = false
at_most (some bound) amount = le_ℤ amount bound

abbrev pub in_category : String → Transaction → Bool
in_category category t =
    if category == "uncategorized"
    then not (present t.category_id)
    else is_text t.category_id category

abbrev pub of_type : String → Transaction → Bool
of_type type t = if type == "credit" then le_ℤ (pos 0) t.amount else lt_ℤ t.amount (pos 0)

-- `applied.from ?? minDate`
abbrev pub bound : Option String → String → String
bound none d = d
bound (some s) d = s

abbrev pub direction : String → SortDir
direction sort_dir = if sort_dir == "asc" then asc else desc

-- `SortKey`; the page casts whatever the URL holds, and no branch of the comparator takes the rest.
pub data SortKey : Type 0 where
  booking_date description location amount unknown : SortKey

unfoldable pub sort_key_of : String → SortKey
sort_key_of key =
    if key == "booking_date"
    then booking_date
    else if key == "description"
    then description
    else if key == "location"
    then location
    else if key == "amount"
    then amount
    else unknown

module _ (platform : Platform) where
  open platform use {to_lower, locale_compare, parse_float}

  -- `field && field.toLowerCase().includes(q)`
  abbrev pub mentions : String → Option String → Bool
  mentions q none = false
  mentions q (some s) = truthy s && includes (to_lower s) q

  unfoldable pub is_hit : String → Transaction → Bool
  is_hit q t =
      includes (to_lower t.description) q
      || mentions q (some t.reference)
      || mentions q t.location
      || mentions q t.counterparty_name
      || mentions q t.counterparty_iban
      || mentions q t.bank_transaction_code
      || mentions q t.mandate_reference

  unfoldable pub parse_amount : String → Option ℤ
  unfolding replace_char
  parse_amount val = parse_float (replace_char b',' "." val)

  -- The filters, one after the other as the page applies them.
  unfoldable pub filter_rows : Page → List Transaction → List Transaction
  filter_rows p all_txns =
      let f = p.applied in
      let from_date = bound f.from (min_date all_txns) in
      let to_date = bound f.to (max_date all_txns) in
      let q = to_lower f.search in
      let a = filter_if p.hide_reconciled (λ t. not t.is_reconciled) all_txns in
      let b = filter_if (not (f.category == "all")) (in_category f.category) a in
      let c = filter_if (not (f.type == "all")) (of_type f.type) b in
      let d = filter_if (not (is_blank f.search)) (is_hit q) c in
      let e =
        filter_if (truthy from_date) (λ t. text_le from_date (booking_day t.booking_date)) d in
      let g = filter_if (truthy to_date) (λ t. text_le (booking_day t.booking_date) to_date) e in
      let h =
        filter_if (not (f.amount_min == "")) (λ t. at_least (parse_amount f.amount_min) t.amount)
          g in
      filter_if (not (f.amount_max == "")) (λ t. at_most (parse_amount f.amount_max) t.amount) h

  abbrev pub compare_on : SortKey → Transaction → Transaction → ℤ
  compare_on booking_date a b = locale_compare a.booking_date b.booking_date
  compare_on description a b = locale_compare a.description b.description
  compare_on location a b = locale_compare (text_or a.location "") (text_or b.location "")
  compare_on amount a b = a.amount -ℤ b.amount
  compare_on unknown a b = pos 0

  abbrev pub row_order : Page → Transaction → Transaction → ℤ
  row_order p a b = directed (direction p.sort_dir) (compare_on (sort_key_of p.sort_key) a b)

  -- The rows that the page shows.
  unfoldable pub filtered : Page → List Transaction → List Transaction
  filtered p all_txns =
      if p.has_applied_once then sort (row_order p) (filter_rows p all_txns) else []
