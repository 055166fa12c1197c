-- ===== src/Transactions/Rows/Shown.antt =====
-- Which rows are shown: the chain of filters is one test, and sorting rearranges.
use mathlib.Core.List.{Mem, Perm, not-mem-nil}
use mathlib.Core.List.Perm
use mathlib.Core.Bool.{false≢true}
use cogni_cash.Base.{
  ◌≡◌, refl, sym, ap, ◌∙◌, ◌↔◌, inl, inr, Bool, true, false, List, [], ◌∷◌, if◌then◌else◌, filter,
  filter-filter, Bool-cases, subst,
}
use cogni_cash.Base.Sort.{sort, sort-perm}
use cogni_cash.Base.Platform.{Platform}
use cogni_cash.Base.Members.{mem-filter}
use cogni_cash.Types.{Transaction}
use cogni_cash.Transactions.Page.{Page}
use cogni_cash.Transactions.Rows.Matching.{
  Matches, matches, matches_iff, hidden_test, category_test, type_test, search_test, from_test,
  to_test, min_test, max_test,
}
use cogni_cash.Transactions.Rows.{filter_if, min_date, max_date, filter_rows, row_order, filtered}

pub filter_if-eq-filter :
    {A : Type 0} (test : Bool) (keep : A → Bool) (rows : List A)
    → filter_if test keep rows ≡ filter (λ t. if test then keep t else true) rows
unfolding filter_if
filter_if-eq-filter true keep rows = refl
filter_if-eq-filter false keep [] = refl
filter_if-eq-filter false keep (t ∷ rows) = ap (◌∷◌ t) (filter_if-eq-filter false keep rows)

module _ (platform : Platform) (p : Page) where
  pub filter_rows-eq-filter :
      (rows : List Transaction)
      → filter_rows platform p rows
        ≡ filter (matches platform p (min_date rows) (max_date rows)) rows
  unfolding filter_rows matches hidden_test category_test type_test search_test from_test to_test
      min_test max_test
  filter_rows-eq-filter rows = simp (filter_if-eq-filter, filter-filter)

  pub filtered_on :
      (rows : List Transaction)
      → p.has_applied_once ≡ true
      → filtered platform p rows ≡ sort (row_order platform p) (filter_rows platform p rows)
  unfolding filtered
  filtered_on rows h = rw h

  filtered_off :
      (rows : List Transaction) → p.has_applied_once ≡ false → filtered platform p rows ≡ []
  unfolding filtered
  filtered_off rows h = rw h

  pub filtered-perm :
      (rows : List Transaction)
      → p.has_applied_once ≡ true
      → Perm
          (filtered platform p rows)
          (filter (matches platform p (min_date rows) (max_date rows)) rows)
  filtered-perm rows h =
      rw (filtered_on rows h, ← filter_rows-eq-filter rows) (sort-perm (row_order platform p) _)

  -- A row is shown exactly if a search was started, the row was fetched, and it meets every active
  -- filter.
  pub mem-filtered_iff :
      (rows : List Transaction) (t : Transaction)
      → Mem t (filtered platform p rows) ↔ (
          (p.has_applied_once ≡ true)
          × Mem t rows
          × Matches platform p (min_date rows) (max_date rows) t)
  mem-filtered_iff rows t = elim (Bool-cases p.has_applied_once) [
    | inl e ↦
        let perm = filtered-perm rows e in
        let member = mem-filter (matches platform p (min_date rows) (max_date rows)) t rows in
        let test = matches_iff platform p (min_date rows) (max_date rows) t in
        (
          λ m. let k = member.0 ((Perm.mem_iff perm).0 m) in (e, k.0, test.0 k.1),
          λ k. (Perm.mem_iff perm).1 (member.1 (k.1, test.1 k.2)),
        )
    | inr e ↦ (
      λ m. absurd (not-mem-nil (subst (Mem t) (filtered_off rows e) m)),
      λ k. absurd (false≢true (sym e ∙ k.0)),
    )
  ]
