-- ===== src/Analytics/Dirty.antt =====
-- The mark of filters that are not applied yet.
use cogni_cash.Base.{
  String, ◌==◌, ◌≡◌, refl, Bool, true, false, not, ◌&&◌, Option, none, some, List, [], ◌∷◌,
  if◌then◌else◌, truthy, filter, arith, eq_iff, ap, ap₂,
}
use cogni_cash.Base.Collections.{JsSet, has}
use cogni_cash.Base.Sort.{sort, insert_by}
use cogni_cash.Base.Order.{text_compare}
use cogni_cash.Types.{Transaction}
use cogni_cash.Analytics.{
  FilterState, Page, texts_eq, bool_eq, is_dirty, handle_apply, is_excluded, keeps,
  effective_applied, filtered_txns, min_date, max_date,
}

has-insert_by :
    (x : String) (s : JsSet) (y : String)
    → has (insert_by text_compare x s) y ≡ (if x == y then true else has s y)
unfolding has insert_by
has-insert_by x [] y = refl
has-insert_by x (z ∷ s) y = ground (arith, has-insert_by x s y)

has-sort : (s : JsSet) (y : String) → has (sort text_compare s) y ≡ has s y
unfolding has sort
has-sort [] y = refl
has-sort (x ∷ s) y = rw (has-insert_by x (sort text_compare s) y, has-sort s y) refl

texts_eq→eq : (xs ys : List String) → texts_eq xs ys ≡ true → xs ≡ ys
texts_eq→eq [] [] h = refl
texts_eq→eq [] (y ∷ ys) h = cc
texts_eq→eq (x ∷ xs) [] h = cc
texts_eq→eq (x ∷ xs) (y ∷ ys) h = ground (arith, eq_iff x y, texts_eq→eq xs ys)

bool_eq→eq : (a b : Bool) → bool_eq a b ≡ true → a ≡ b
bool_eq→eq true b h = cc
bool_eq→eq false true h = cc
bool_eq→eq false false h = refl

filter-cong :
    {A : Type 0} (p q : A → Bool)
    → ((x : A) → p x ≡ q x)
    → (xs : List A) → filter p xs ≡ filter q xs
filter-cong p q h [] = refl
filter-cong p q h (x ∷ xs) = rw (h x, filter-cong p q h xs) refl

-- Filters that differ at most in the order of the excluded ids.
abbrev Same : FilterState → FilterState → Type 0
Same f g =
    (f.from ≡ g.from)
    × (f.to ≡ g.to)
    × (f.hide_reconciled ≡ g.hide_reconciled)
    × ((c : String) → has f.exclude_ids c ≡ has g.exclude_ids c)

not-is_dirty-Same : (p : Page) → is_dirty p ≡ false → Same p.draft p.applied
unfolding is_dirty
not-is_dirty-Same p h =
    let parts : (p.draft.from == p.applied.from ≡ true)
        × (p.draft.to == p.applied.to ≡ true)
        × (texts_eq (sort text_compare p.draft.exclude_ids)
              (sort text_compare p.applied.exclude_ids)
            ≡ true)
        × (bool_eq p.draft.hide_reconciled p.applied.hide_reconciled ≡ true) =
      ground arith in
    let same = texts_eq→eq _ _ parts.2 in
    (
      (eq_iff p.draft.from p.applied.from).0 parts.0,
      (eq_iff p.draft.to p.applied.to).0 parts.1,
      bool_eq→eq _ _ parts.3,
      λ c.
          rw⁻¹ (has-sort p.draft.exclude_ids c, has-sort p.applied.exclude_ids c)
            (ap (λ s. has s c) same),
    )

excluded_alike :
    (s t : JsSet) (o : Option String)
    → ((c : String) → has s c ≡ has t c)
    → is_excluded s o ≡ is_excluded t o
excluded_alike s t none h = h "uncategorized"
excluded_alike s t (some c) h = rw (h c, h "uncategorized") refl

keeps_alike : (f g : FilterState) (t : Transaction) → Same f g → keeps f t ≡ keeps g t
unfolding keeps
keeps_alike f g t (a, b, c, d) =
    rw (a, b, c, excluded_alike f.exclude_ids g.exclude_ids t.category_id d) refl

effective_applied-Same :
    (rows : List Transaction) (f g : FilterState)
    → Same f g
    → Same (effective_applied rows f) (effective_applied rows g)
unfolding effective_applied
effective_applied-Same rows f g (a, b, c, d) = split (is_open f) (is_open g) (
    ap₂
      (λ lo hi.
        not (truthy lo) && not (truthy hi) && truthy (min_date rows) && truthy (max_date rows))
      a b)
  where
    is_open : FilterState → Bool
    is_open h =
        not (truthy h.from) && not (truthy h.to) && truthy (min_date rows) && truthy (max_date rows)

    split :
        (u v : Bool)
        → u ≡ v
        → Same
            (if u then record f { from = min_date rows; to = max_date rows } else f)
            (if v then record g { from = min_date rows; to = max_date rows } else g)
    split true true e = (refl, refl, c, d)
    split false false e = (a, b, c, d)
    split true false e = cc
    split false true e = cc

-- If the page does not mark its filters as unapplied, applying them changes nothing of what is
-- shown.
pub filtered_txns-handle_apply :
    (rows : List Transaction) (p : Page)
    → is_dirty p ≡ false
    → filtered_txns rows (handle_apply p).applied ≡ filtered_txns rows p.applied
unfolding filtered_txns handle_apply
filtered_txns-handle_apply rows p h =
    let f = effective_applied rows p.draft in
    let g = effective_applied rows p.applied in
    filter-cong (keeps f) (keeps g)
      (λ t.
        keeps_alike f g t (effective_applied-Same rows p.draft p.applied (not-is_dirty-Same p h)))
      rows
