-- ===== src/Invoices/Listing.antt =====
-- Which invoices are listed, and in which order.
use mathlib.Core.List.{Perm}
use cogni_cash.Base.{
  String, ◌==◌, ◌≡◌, Bool, true, not, ◌&&◌, Option, List, if◌then◌else◌, truthy, text_or, is_blank,
  filter, filter-filter,
}
use cogni_cash.Base.Int.{pos, sum_of, sum_from-eq-sum_of, zero_add}
use cogni_cash.Base.Sort.{
  sort, sort-perm, sort-IsSorted, IsSorted, IsConsistent, directed-IsConsistent,
}
use cogni_cash.Base.Sums.{sum_of-sort}
use cogni_cash.Base.Order.{on_key-IsConsistent, amount_compare-IsConsistent}
use cogni_cash.Base.Platform.{Platform}
use cogni_cash.Types.{Invoice, Category}
use cogni_cash.Transactions.Rows.{at_least, at_most, parse_amount}
use cogni_cash.Transactions.Rows.Shown.{filter_if-eq-filter}
use cogni_cash.Invoices.{
  View, SortKey, issued_at, vendor, category, description, amount, in_category, of_source,
  on_or_after, on_or_before, is_hit, filter_invoices, compare_on, invoice_order, filtered_invoices,
  category_name, vendor_name, total_amount,
}

module _ (platform : Platform) (categories : List Category) (me : Option String) (v : View) where
  -- All active filters at once.
  abbrev pub matches : Invoice → Bool
  matches inv =
      let f = v.applied in
      ((((((((if not (is_blank f.search)
                      then is_hit platform categories me (platform.to_lower f.search) inv
                      else true)
                    && (if not (f.category == "all") then in_category f.category inv else true))
                  && (if f.source == "mine" then of_source "mine" me inv else true))
                && (if f.source == "shared" then of_source "shared" me inv else true))
              && (if truthy f.from then on_or_after f.from inv.issued_at else true))
            && (if truthy f.to then on_or_before f.to inv.issued_at else true))
          && (if not (f.amount_min == "")
              then at_least (parse_amount platform f.amount_min) inv.amount
              else true))
        && (if not (f.amount_max == "")
            then at_most (parse_amount platform f.amount_max) inv.amount
            else true))

  filter_invoices-eq-filter :
      (invoices : List Invoice)
      → filter_invoices platform categories me v invoices ≡ filter matches invoices
  unfolding filter_invoices
  filter_invoices-eq-filter invoices = simp (filter_if-eq-filter, filter-filter)

  compare_on-IsConsistent : (key : SortKey) → IsConsistent (compare_on platform categories me key)
  compare_on-IsConsistent issued_at =
      on_key-IsConsistent _ (λ inv. text_or inv.issued_at "") platform.collation
  compare_on-IsConsistent vendor = on_key-IsConsistent _ vendor_name platform.collation
  compare_on-IsConsistent category =
      on_key-IsConsistent _ (category_name categories) platform.collation
  compare_on-IsConsistent description =
      on_key-IsConsistent _ (λ inv. text_or inv.description "") platform.collation
  compare_on-IsConsistent amount = amount_compare-IsConsistent (λ inv. inv.amount)

  -- The listed invoices are a rearrangement of those that meet every active filter, each as often
  -- as it was fetched, in the chosen order, and their total is the sum of the amounts of those.
  pub filtered_invoices-IsSorted :
      (invoices : List Invoice)
      → Perm (filtered_invoices platform categories me v invoices) (filter matches invoices)
        × IsSorted
            (invoice_order platform categories me v)
            (filtered_invoices platform categories me v invoices)
        × (total_amount (filtered_invoices platform categories me v invoices)
            ≡ sum_of (λ (inv : Invoice). inv.amount) (filter matches invoices))
  unfolding filtered_invoices total_amount
  filtered_invoices-IsSorted invoices =
      let order = invoice_order platform categories me v in
      let shown = filter matches invoices in
      rw (filter_invoices-eq-filter invoices) (
        sort-perm order shown,
        sort-IsSorted order
            (directed-IsConsistent _ (compare_on-IsConsistent v.sort_key) v.sort_dir) shown,
        rw
            (
              sum_from-eq-sum_of (λ (inv : Invoice). inv.amount) (pos 0) (sort order shown),
              zero_add (sum_of (λ (inv : Invoice). inv.amount) (sort order shown)),
            )
            (sum_of-sort (λ (inv : Invoice). inv.amount) order shown),
      )
