-- ===== src/Transactions/Rows/Undated.antt =====
-- What is shown while no dates are chosen.
use mathlib.Core.List.{Mem}
use cogni_cash.Base.{String, ◌≡◌, refl, ◌≢◌, ◌↔◌, true, none, some, List, [], ◌∷◌, text_le}
use cogni_cash.Base.Order.{text_le_antisymm}
use cogni_cash.Base.Platform.{Platform}
use cogni_cash.Types.{Transaction}
use cogni_cash.Transactions.Page.{Page}
use cogni_cash.Transactions.Rows.{to_day, min_date, max_date, booking_day, bound, filtered}
use cogni_cash.Transactions.Rows.Matching.{Matches}
use cogni_cash.Transactions.Rows.Shown.{mem-filtered_iff}
use cogni_cash.Transactions.Rows.Range.{to_day_in_range, lone_range}
use cogni_cash.Transactions.Rows.Notations.{
  is_iso, is_german, booking_day-iso, booking_day-german, to_day_differs, to_day_known,
}

-- The page with the filter on dates switched off.
abbrev pub undated : Page → Page
undated p = record p { applied = record p.applied { from = some ""; to = some "" } }

module _ (platform : Platform) (p : Page) (lo hi : String) (t : Transaction) where
  undated-Matches : Matches platform p lo hi t → Matches platform (undated p) lo hi t
  undated-Matches m = record {
    not_hidden = m.not_hidden;
    category = m.category;
    type = m.type;
    hit = m.hit;
    from = λ n. absurd (n refl);
    to = λ n. absurd (n refl);
    min = m.min;
    max = m.max;
  }

  dated-Matches :
      (bound p.applied.from lo ≢ ""
        → text_le (bound p.applied.from lo) (booking_day t.booking_date) ≡ true)
      → (bound p.applied.to hi ≢ ""
          → text_le (booking_day t.booking_date) (bound p.applied.to hi) ≡ true)
      → Matches platform (undated p) lo hi t
      → Matches platform p lo hi t
  dated-Matches f g m = record {
    not_hidden = m.not_hidden;
    category = m.category;
    type = m.type;
    hit = m.hit;
    from = f;
    to = g;
    min = m.min;
    max = m.max;
  }

iso_shown_iff :
    (platform : Platform) (p : Page) (rows : List Transaction) (t : Transaction)
    → p.applied.from ≡ none
    → p.applied.to ≡ none
    → is_iso t.booking_date ≡ true
    → Mem t (filtered platform p rows) ↔ Mem t (filtered platform (undated p) rows)
iso_shown_iff platform p rows t f g h =
    let day = booking_day-iso t.booking_date h in
    let known : to_day t.booking_date ≢ "" = λ e. cc (day.1) in
    let shown = mem-filtered_iff platform p rows t in
    let plain = mem-filtered_iff platform (undated p) rows t in
    (
      λ m.
          let k = shown.0 m in
          plain.1 (k.0, k.1, undated-Matches platform p (min_date rows) (max_date rows) t k.2),
      λ m.
          let k = plain.0 m in
          let range = to_day_in_range rows t k.1 known in
          shown.1 (
            k.0,
            k.1,
            dated-Matches platform p (min_date rows) (max_date rows) t
                (λ _. rw (f, ← day.0) range.0) (λ _. rw (g, ← day.0) range.1) k.2,
          ),
    )

german_not_shown :
    (platform : Platform) (p : Page) (u : Transaction)
    → p.applied.from ≡ none
    → p.applied.to ≡ none
    → is_german u.booking_date ≡ true
    → ¬ Mem u (filtered platform p (u ∷ []))
german_not_shown platform p u f g h m =
    let day = to_day u.booking_date in
    let matches = ((mem-filtered_iff platform p (u ∷ []) u).0 m).2 in
    let range = lone_range u in
    let known = to_day_known u.booking_date h in
    let from = matches.from (rw (f, range.0) known) in
    let to = matches.to (rw (g, range.1) known) in
    to_day_differs u.booking_date h (
      text_le_antisymm day u.booking_date
        (rw (f, range.0, booking_day-german u.booking_date h) at from)
        (rw (g, range.1, booking_day-german u.booking_date h) at to))

-- With no dates chosen, a row whose booking date is in one of the two notations that begin with
-- the year is shown exactly if it is shown with the filter on dates switched off, whatever the
-- notations of the other rows; but a row with a date written dd.mm.yyyy is not shown when it is
-- the only one that was fetched.
pub mem-filtered-undated :
    (platform : Platform) (p : Page) (rows : List Transaction) (t u : Transaction)
    → p.applied.from ≡ none
    → p.applied.to ≡ none
    → is_iso t.booking_date ≡ true
    → is_german u.booking_date ≡ true
    → (Mem t (filtered platform p rows) ↔ Mem t (filtered platform (undated p) rows))
      × ¬ Mem u (filtered platform p (u ∷ []))
mem-filtered-undated platform p rows t u f g h k =
    (iso_shown_iff platform p rows t f g h, german_not_shown platform p u f g k)
