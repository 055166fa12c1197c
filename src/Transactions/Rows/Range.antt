-- ===== src/Transactions/Rows/Range.antt =====
-- The default date range: the first and the last known day of the fetched rows.
use mathlib.Core.List.{Mem, mem-cons, not-mem-nil, mem-map_of_mem}
use mathlib.Core.List.Perm
use mathlib.Core.Logic.Or
use native.Mathlib.Bridge.{le_prop}
use cogni_cash.Base.{
  String, eq_iff, ◌≡◌, refl, ◌≢◌, true, List, [], ◌∷◌, map, truthy, text_le, filter, arith, All,
  first, last,
}
use cogni_cash.Base.Int.{pos, ◌≤ℤ◌}
use cogni_cash.Base.Sort.{IsSorted, sort, sort-perm, sort-IsSorted}
use cogni_cash.Base.Order.{text_compare, text_compare-IsConsistent, text_le_iff, text_compare_refl}
use cogni_cash.Base.Members.{mem-filter}
use cogni_cash.Types.{Transaction}
use cogni_cash.Transactions.Rows.{to_day, or_empty, days, min_date, max_date}

All-mem :
    (P : String → Type 0)
    → ((s : String) → IsProp (P s))
    → (xs : List String) (x : String) → All P xs
    → Mem x xs
    → P x
All-mem P prop [] x h m = absurd (not-mem-nil m)
All-mem P prop (y ∷ xs) x (p, h) m =
    Or.elim (prop x) (mem-cons.0 m) (λ e. rw e p) (All-mem P prop xs x h)

first-le :
    (xs : List String) (x : String)
    → IsSorted text_compare xs
    → Mem x xs
    → text_compare (or_empty (first xs)) x ≤ℤ pos 0
first-le [] x s m = absurd (not-mem-nil m)
first-le (y ∷ xs) x (b, s) m =
    Or.elim le_prop (mem-cons.0 m) (λ e. rw e (text_compare_refl y))
      (All-mem (λ z. text_compare y z ≤ℤ pos 0) (λ z. le_prop) xs x b)

le-last :
    (xs : List String) (x : String)
    → IsSorted text_compare xs
    → Mem x xs
    → text_compare x (or_empty (last xs)) ≤ℤ pos 0
le-last [] x s m = absurd (not-mem-nil m)
le-last (y ∷ []) x s m =
    Or.elim le_prop (mem-cons.0 m) (λ e. rw e (text_compare_refl y)) (λ k. absurd (not-mem-nil k))
le-last (y ∷ z ∷ xs) x ((b, bs), s) m =
    Or.elim le_prop (mem-cons.0 m)
      (λ e.
        rw e (
          text_compare-IsConsistent.trans y z _ b
            (le-last (z ∷ xs) z s (mem-cons.1 (Or.inl refl)))))
      (le-last (z ∷ xs) x s)

mem-days :
    (rows : List Transaction) (t : Transaction)
    → Mem t rows
    → to_day t.booking_date ≢ ""
    → Mem (to_day t.booking_date) (days rows)
unfolding days
mem-days rows t m h = (Perm.mem_iff (sort-perm text_compare _)).1 (
    (mem-filter truthy _ _).1 (
      mem-map_of_mem (λ u. to_day u.booking_date) m,
      ground (arith, eq_iff (to_day t.booking_date) ""),
    ))

days-IsSorted : (rows : List Transaction) → IsSorted text_compare (days rows)
unfolding days
days-IsSorted rows =
    sort-IsSorted text_compare text_compare-IsConsistent
      (filter truthy (map (λ t. to_day t.booking_date) rows))

-- A fetched row with a known day lies in the default range.
pub to_day_in_range :
    (rows : List Transaction) (t : Transaction)
    → Mem t rows
    → to_day t.booking_date ≢ ""
    → (text_le (min_date rows) (to_day t.booking_date) ≡ true)
      × (text_le (to_day t.booking_date) (max_date rows) ≡ true)
unfolding min_date max_date
to_day_in_range rows t m h = (
  (text_le_iff _ _).1 (first-le _ _ (days-IsSorted rows) (mem-days rows t m h)),
  (text_le_iff _ _).1 (le-last _ _ (days-IsSorted rows) (mem-days rows t m h)),
)

-- The range of a row that is alone.
pub lone_range :
    (t : Transaction)
    → (min_date (t ∷ []) ≡ to_day t.booking_date) × (max_date (t ∷ []) ≡ to_day t.booking_date)
unfolding min_date max_date days sort
lone_range t = ground (arith, eq_iff (to_day t.booking_date) "")
