-- ===== src/Transactions/Rows/Ordered.antt =====
-- In which order the rows are shown, written without the comparator.
use mathlib.Core.List.{Perm}
use cogni_cash.Base.{
  String, ◌==◌, ◌≡◌, refl, ◌↔◌, inl, inr, Bool, true, ◌&&◌, List, if◌then◌else◌, text_or, filter,
  arith, Bool-cases,
}
use cogni_cash.Base.Int.{ℤ, pos, le_ℤ, ◌≤ℤ◌, ◌-ℤ◌, neg_parts}
use cogni_cash.Base.Sort.{
  IsConsistent, sort-IsSorted, directed-IsConsistent, Pairwise, IsSorted-Pairwise, filter-sort,
}
use cogni_cash.Base.Order.{on_key-IsConsistent, amount_compare-IsConsistent, zero-IsConsistent}
use cogni_cash.Base.Platform.{Platform}
use cogni_cash.Types.{Transaction}
use cogni_cash.Transactions.Page.{Page}
use cogni_cash.Transactions.Rows.Matching.{matches}
use cogni_cash.Transactions.Rows.Shown.{filter_rows-eq-filter, filtered_on, filtered-perm}
use cogni_cash.Transactions.Rows.{
  min_date, max_date, direction, SortKey, booking_date, description, location, amount, unknown,
  compare_on, row_order, filtered, sort_key_of,
}

le_difference : (a b : ℤ) → le_ℤ a b ≡ le_ℤ (a -ℤ b) (pos 0)
unfolding ◌-ℤ◌
le_difference a b = ground arith

module _ (platform : Platform) where
  -- Ascending by the column that the page names; other names put nothing in order.
  abbrev pub ascends : String → Transaction → Transaction → Bool
  ascends key t u =
      if key == "booking_date"
      then le_ℤ (platform.locale_compare t.booking_date u.booking_date) (pos 0)
      else if key == "description"
      then le_ℤ (platform.locale_compare t.description u.description) (pos 0)
      else if key == "location"
      then le_ℤ (platform.locale_compare (text_or t.location "") (text_or u.location "")) (pos 0)
      else if key == "amount"
      then le_ℤ t.amount u.amount
      else true

  -- Falling unless the page says "asc".
  abbrev pub stands_before : Page → Transaction → Transaction → Bool
  stands_before p t u =
      if p.sort_dir == "asc" then ascends p.sort_key t u else ascends p.sort_key u t

  abbrev pub ties : Page → Transaction → Transaction → Bool
  ties p t u = stands_before p t u && stands_before p u t

  compare_on-IsConsistent : (key : SortKey) → IsConsistent (compare_on platform key)
  compare_on-IsConsistent booking_date =
      on_key-IsConsistent _ (λ t. t.booking_date) platform.collation
  compare_on-IsConsistent description =
      on_key-IsConsistent _ (λ t. t.description) platform.collation
  compare_on-IsConsistent location =
      on_key-IsConsistent _ (λ t. text_or t.location "") platform.collation
  compare_on-IsConsistent amount = amount_compare-IsConsistent (λ t. t.amount)
  compare_on-IsConsistent unknown = zero-IsConsistent

  ascends_lem :
      (key : String) (t u : Transaction)
      → ascends key t u ≡ le_ℤ (compare_on platform (sort_key_of key) t u) (pos 0)
  unfolding sort_key_of
  ascends_lem key t u = elim (Bool-cases (key == "booking_date")) [
    | inl e ↦ rw e refl
    | inr e ↦ elim (Bool-cases (key == "description")) [
      | inl f ↦ rw (e, f) refl
      | inr f ↦ elim (Bool-cases (key == "location")) [
        | inl g ↦ rw (e, f, g) refl
        | inr g ↦ elim (Bool-cases (key == "amount")) [
          | inl h ↦ rw (e, f, g, h) (le_difference t.amount u.amount)
          | inr h ↦ rw (e, f, g, h) (ground arith)
        ]
      ]
    ]
  ]

  module _ (p : Page) where
    row_order-IsConsistent : IsConsistent (row_order platform p)
    row_order-IsConsistent =
        directed-IsConsistent _ (compare_on-IsConsistent _) (direction p.sort_dir)

    row_order_iff :
        (t u : Transaction) → (row_order platform p t u ≤ℤ pos 0) ↔ (stands_before p t u ≡ true)
    row_order_iff t u =
        let laws = compare_on-IsConsistent (sort_key_of p.sort_key) in
        elim (Bool-cases (p.sort_dir == "asc")) [
          | inl e ↦ rw (e, ascends_lem p.sort_key t u) (ground arith)
          | inr e ↦
              rw (e, ascends_lem p.sort_key u t)
                (
                  λ h. ground (
                    arith,
                    laws.unflip u t,
                    neg_parts (compare_on platform (sort_key_of p.sort_key) t u),
                  ),
                  λ h. ground (
                    arith,
                    laws.flip u t,
                    neg_parts (compare_on platform (sort_key_of p.sort_key) t u),
                  ),
                )
        ]

    tied :
        (t x y : Transaction)
        → ties p t x ≡ true
        → ties p t y ≡ true
        → row_order platform p x y ≤ℤ pos 0
    tied t x y h k =
        row_order-IsConsistent.trans x t y ((row_order_iff x t).1 (ground arith))
          ((row_order_iff t y).1 (ground arith))

    -- Once a search was started, what the page shows is a rearrangement of the rows that pass the
    -- filters, each as often as it was fetched; it ascends in the column that the page names if
    -- the page says "asc", and falls in it otherwise, where a column that is not known leaves the
    -- rows as they are; and rows that tie stand in the order in which they were fetched.
    pub filtered-IsOrdered :
        (rows : List Transaction) (t : Transaction)
        → p.has_applied_once ≡ true
        → let passing = filter (matches platform p (min_date rows) (max_date rows)) rows in
          Perm (filtered platform p rows) passing
          × Pairwise (stands_before p) (filtered platform p rows)
          × (filter (ties p t) (filtered platform p rows) ≡ filter (ties p t) passing)
    filtered-IsOrdered rows t h = (
      filtered-perm platform p rows h,
      rw (filtered_on platform p rows h) (
          IsSorted-Pairwise (row_order platform p) (stands_before p) (λ x y. (row_order_iff x y).0)
            _ (sort-IsSorted (row_order platform p) row_order-IsConsistent _)),
      rw (filtered_on platform p rows h, ← filter_rows-eq-filter platform p rows)
          (filter-sort (row_order platform p) (ties p t) (tied t) _),
    )
