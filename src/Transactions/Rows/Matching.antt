-- ===== src/Transactions/Rows/Matching.antt =====
-- What a row has to meet to be shown, as a record of conditions and as a Boolean test.
use cogni_cash.Base.{
  String, ◌==◌, eq_iff, ◌≡◌, refl, ◌≢◌, ◌↔◌, inl, inr, Bool, true, false, not, ◌&&◌, Option, none,
  some, if◌then◌else◌, truthy, present, is_text, text_le, is_blank, arith, Bool-cases,
}
use cogni_cash.Base.Int.{ℤ, pos, ◌≤ℤ◌}
use cogni_cash.Base.Platform.{Platform}
use cogni_cash.Types.{Transaction}
use cogni_cash.Transactions.Page.{Page}
use cogni_cash.Transactions.Rows.{
  booking_day, is_hit, parse_amount, at_least, at_most, in_category, of_type, bound,
}

-- What a row has to meet under the page's filters, each active one on its own; `lo` and `hi` are the
-- first and the last known day of all rows.
pub record Matches (platform : Platform) (p : Page) (lo hi : String) (t : Transaction)
    : Type 0 where
  pub not_hidden : p.hide_reconciled ≡ true → t.is_reconciled ≡ false
  pub category :
      p.applied.category ≢ "all"
      → (p.applied.category ≡ "uncategorized" → present t.category_id ≡ false)
        × (p.applied.category ≢ "uncategorized" → t.category_id ≡ some p.applied.category)
  pub type :
      p.applied.type ≢ "all"
      → (p.applied.type ≡ "credit" → pos 0 ≤ℤ t.amount)
        × (p.applied.type ≢ "credit" → ¬ (pos 0 ≤ℤ t.amount))
  pub hit :
      is_blank p.applied.search ≡ false
      → is_hit platform (platform.to_lower p.applied.search) t ≡ true
  pub from :
      bound p.applied.from lo ≢ ""
      → text_le (bound p.applied.from lo) (booking_day t.booking_date) ≡ true
  pub to :
      bound p.applied.to hi ≢ ""
      → text_le (booking_day t.booking_date) (bound p.applied.to hi) ≡ true
  pub min :
      p.applied.amount_min ≢ ""
      → (m : ℤ) × (parse_amount platform p.applied.amount_min ≡ some m) × (m ≤ℤ t.amount)
  pub max :
      p.applied.amount_max ≢ ""
      → (m : ℤ) × (parse_amount platform p.applied.amount_max ≡ some m) × (t.amount ≤ℤ m)

-- A test that is only made where a setting differs from its neutral value.
ne_iff :
    (s d : String) (b : Bool) → ((if not (s == d) then b else true) ≡ true) ↔ (s ≢ d → b ≡ true)
ne_iff s d b = elim (Bool-cases (s == d)) [
  | inl e ↦ rw e (λ h k. absurd (k ((eq_iff s d).0 e)), λ h. refl)
  | inr e ↦ rw e (λ h k. h, λ h. h (λ k. cc (e, (eq_iff s d).1 k)))
]

on_iff : (a b : Bool) → ((if a then b else true) ≡ true) ↔ (a ≡ true → b ≡ true)
on_iff true b = (λ h k. h, λ h. h refl)
on_iff false b = (λ h k. cc, λ h. refl)

iff_arrow {ℓ} : {A P Q : Type ℓ} → P ↔ Q → (A → P) ↔ (A → Q)
iff_arrow e = (λ h a. e.0 (h a), λ h a. e.1 (h a))

iff_trans {ℓ} : {A P Q : Type ℓ} → A ↔ P → P ↔ Q → A ↔ Q
iff_trans e f = (λ a. f.0 (e.0 a), λ q. e.1 (f.1 q))

is_text_iff : (o : Option String) (s : String) → (is_text o s ≡ true) ↔ (o ≡ some s)
is_text_iff none s = ground arith
is_text_iff (some r) s = ground (arith, eq_iff r s)

in_category_iff :
    (category : String) (t : Transaction)
    → (in_category category t ≡ true) ↔ (
        (category ≡ "uncategorized" → present t.category_id ≡ false)
        × (category ≢ "uncategorized" → t.category_id ≡ some category))
in_category_iff category t = elim (Bool-cases (category == "uncategorized")) [
  | inl e ↦ rw e (
    (λ h. (λ _. ground arith, λ n. absurd (n ((eq_iff _ _).0 e)))),
    λ h. let k = h.0 ((eq_iff _ _).0 e) in ground arith,
  )
  | inr e ↦ rw e (
    (λ h. (λ u. cc (e, (eq_iff category "uncategorized").1 u), λ _. (is_text_iff _ _).0 h)),
    λ h. (is_text_iff _ _).1 (h.1 (λ u. cc (e, (eq_iff category "uncategorized").1 u))),
  )
]

of_type_iff :
    (type : String) (t : Transaction)
    → (of_type type t ≡ true)
      ↔ ((type ≡ "credit" → pos 0 ≤ℤ t.amount) × (type ≢ "credit" → ¬ (pos 0 ≤ℤ t.amount)))
of_type_iff type t = ground (arith, eq_iff type "credit")

at_least_iff : (o : Option ℤ) (a : ℤ) → (at_least o a ≡ true) ↔ ((m : ℤ) × (o ≡ some m) × (m ≤ℤ a))
at_least_iff none a = (λ h. cc, λ h. cc (h.1))
at_least_iff (some m) a = (λ h. (m, refl, ground arith), λ h. ground (arith, h.1, h.2))

at_most_iff : (o : Option ℤ) (a : ℤ) → (at_most o a ≡ true) ↔ ((m : ℤ) × (o ≡ some m) × (a ≤ℤ m))
at_most_iff none a = (λ h. cc, λ h. cc (h.1))
at_most_iff (some m) a = (λ h. (m, refl, ground arith), λ h. ground (arith, h.1, h.2))

module _ (platform : Platform) (p : Page) (lo hi : String) (t : Transaction) where
  unfoldable pub hidden_test : Bool
  hidden_test = if p.hide_reconciled then not t.is_reconciled else true

  unfoldable pub category_test : Bool
  category_test =
      if not (p.applied.category == "all") then in_category p.applied.category t else true

  unfoldable pub type_test : Bool
  type_test = if not (p.applied.type == "all") then of_type p.applied.type t else true

  unfoldable pub search_test : Bool
  search_test =
      if not (is_blank p.applied.search)
      then is_hit platform (platform.to_lower p.applied.search) t
      else true

  unfoldable pub from_test : Bool
  from_test =
      if truthy (bound p.applied.from lo)
      then text_le (bound p.applied.from lo) (booking_day t.booking_date)
      else true

  unfoldable pub to_test : Bool
  to_test =
      if truthy (bound p.applied.to hi)
      then text_le (booking_day t.booking_date) (bound p.applied.to hi)
      else true

  unfoldable pub min_test : Bool
  min_test =
      if not (p.applied.amount_min == "")
      then at_least (parse_amount platform p.applied.amount_min) t.amount
      else true

  unfoldable pub max_test : Bool
  max_test =
      if not (p.applied.amount_max == "")
      then at_most (parse_amount platform p.applied.amount_max) t.amount
      else true

  -- The same conditions as one Boolean test.
  unfoldable pub matches : Bool
  matches =
      ((((((hidden_test && category_test) && type_test) && search_test) && from_test) && to_test)
        && min_test)
      && max_test

  hidden_iff : (hidden_test ≡ true) ↔ (p.hide_reconciled ≡ true → t.is_reconciled ≡ false)
  unfolding hidden_test
  hidden_iff = ground arith

  category_iff : (category_test ≡ true) ↔ (
      p.applied.category ≢ "all"
      → (p.applied.category ≡ "uncategorized" → present t.category_id ≡ false)
        × (p.applied.category ≢ "uncategorized" → t.category_id ≡ some p.applied.category))
  unfolding category_test
  category_iff = iff_trans (ne_iff _ _ _) (iff_arrow (in_category_iff _ t))

  type_iff : (type_test ≡ true) ↔ (
      p.applied.type ≢ "all"
      → (p.applied.type ≡ "credit" → pos 0 ≤ℤ t.amount)
        × (p.applied.type ≢ "credit" → ¬ (pos 0 ≤ℤ t.amount)))
  unfolding type_test
  type_iff = iff_trans (ne_iff _ _ _) (iff_arrow (of_type_iff _ t))

  search_iff : (search_test ≡ true) ↔ (
      is_blank p.applied.search ≡ false
      → is_hit platform (platform.to_lower p.applied.search) t ≡ true)
  unfolding search_test
  search_iff = ground arith

  min_iff : (min_test ≡ true) ↔ (
      p.applied.amount_min ≢ ""
      → (m : ℤ) × (parse_amount platform p.applied.amount_min ≡ some m) × (m ≤ℤ t.amount))
  unfolding min_test
  min_iff = iff_trans (ne_iff _ _ _) (iff_arrow (at_least_iff _ _))

  max_iff : (max_test ≡ true) ↔ (
      p.applied.amount_max ≢ ""
      → (m : ℤ) × (parse_amount platform p.applied.amount_max ≡ some m) × (t.amount ≤ℤ m))
  unfolding max_test
  max_iff = iff_trans (ne_iff _ _ _) (iff_arrow (at_most_iff _ _))

  Parts : Type 0
  Parts =
      (hidden_test ≡ true)
      × (category_test ≡ true)
      × (type_test ≡ true)
      × (search_test ≡ true)
      × (from_test ≡ true)
      × (to_test ≡ true)
      × (min_test ≡ true)
      × (max_test ≡ true)

  matches-Parts : (matches ≡ true) ↔ Parts
  unfolding matches Parts
  matches-Parts = ground arith

  Parts-Matches : Parts → Matches platform p lo hi t
  unfolding Parts from_test to_test
  Parts-Matches (a, b, c, d, e, f, g, h) = record {
    not_hidden = hidden_iff.0 a;
    category = category_iff.0 b;
    type = type_iff.0 c;
    hit = search_iff.0 d;
    from = (ne_iff _ _ _).0 e;
    to = (ne_iff _ _ _).0 f;
    min = min_iff.0 g;
    max = max_iff.0 h;
  }

  Matches-Parts : Matches platform p lo hi t → Parts
  unfolding Parts from_test to_test
  Matches-Parts m = (
    hidden_iff.1 m.not_hidden,
    category_iff.1 m.category,
    type_iff.1 m.type,
    search_iff.1 m.hit,
    (ne_iff _ _ _).1 m.from,
    (ne_iff _ _ _).1 m.to,
    min_iff.1 m.min,
    max_iff.1 m.max,
  )

  pub matches_iff : (matches ≡ true) ↔ Matches platform p lo hi t
  matches_iff = (λ h. Parts-Matches (matches-Parts.0 h), λ m. matches-Parts.1 (Matches-Parts m))
