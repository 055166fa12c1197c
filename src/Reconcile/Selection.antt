-- ===== src/Reconcile/Selection.antt =====
-- Which suggestions are selected, seen and sent.
use mathlib.Core.Bool.{false≢true}
use cogni_cash.Base.{
  suc, ◌≤◌, String, ◌==◌, eq_refl, ◌≡◌, refl, ap, Bool, true, false, not, some, List, [], ◌∷◌, map,
  if◌then◌else◌, filter, length, length-map, All, arith, Bool-cases, inl, inr, is_blank,
}
use cogni_cash.Base.Int.{ℤ}
use cogni_cash.Base.Collections.{has, get, put, get-put}
use cogni_cash.Base.Platform.{Platform}
use cogni_cash.Types.{ReconciliationPairSuggestion}
use cogni_cash.Reconcile.{
  View, Deselected, source_hash, is_selected, pairs_to_link, visible_selected_count, mark_all,
  all_selected, handle_toggle_all, filtered_suggestions, is_match,
}

get-mark_all :
    (hs : List String) (value : Bool) (state : Deselected) (h : String)
    → get (mark_all hs value state) h ≡ (if has hs h then some value else get state h)
unfolding mark_all has
get-mark_all [] value state h = refl
get-mark_all (x ∷ hs) value state h = elim (Bool-cases (x == h)) [
  | inl e ↦
      rw (get-mark_all hs value (put x value state) h, get-put x value state h, e)
        (settled (has hs h))
  | inr e ↦ rw (get-mark_all hs value (put x value state) h, get-put x value state h, e) refl
]
  where
    settled : (b : Bool) → (if b then some value else some value) ≡ some value
    settled true = refl
    settled false = refl

is_selected-mark_all :
    (hs : List String) (value : Bool) (state : Deselected) (h : String)
    → is_selected (mark_all hs value state) h
      ≡ (if has hs h then not value else is_selected state h)
unfolding is_selected
is_selected-mark_all hs value state h = elim (Bool-cases (has hs h)) [
  | inl e ↦ rw (get-mark_all hs value state h, e) refl
  | inr e ↦ rw (get-mark_all hs value state h, e) refl
]

-- The hashes of a list are among them.
All-has-map :
    (hs : List String) (xs : List ReconciliationPairSuggestion)
    → ((h : String) → has (map source_hash xs) h ≡ true → has hs h ≡ true)
    → All (λ s. has hs (source_hash s) ≡ true) xs
unfolding has
All-has-map hs [] sub = tt
All-has-map hs (x ∷ xs) sub = (
  sub (source_hash x) (rw (eq_refl (source_hash x)) refl),
  All-has-map hs xs (λ h e.
      sub h (elim (Bool-cases (source_hash x == h)) [ inl f ↦ rw f refl | inr f ↦ rw f e ])),
)

count_marked :
    (hs : List String) (value : Bool) (state : Deselected) (xs : List ReconciliationPairSuggestion)
    → All (λ s. has hs (source_hash s) ≡ true) xs
    → length (filter (λ s. is_selected (mark_all hs value state) (source_hash s)) xs)
      ≡ (if value then 0 else length xs)
count_marked hs true state [] h = refl
count_marked hs false state [] h = refl
count_marked hs true state (x ∷ xs) (h, later) =
    rw (is_selected-mark_all hs true state (source_hash x), h) (count_marked hs true state xs later)
count_marked hs false state (x ∷ xs) (h, later) =
    rw (is_selected-mark_all hs false state (source_hash x), h)
      (ap suc (count_marked hs false state xs later))

-- Toggling all deselects every visible suggestion if all of them were selected, and else selects
-- every one; a suggestion whose source is not visible keeps its state.
pub handle_toggle_all_lem :
    (shown : List ReconciliationPairSuggestion) (v : View)
    → (visible_selected_count (handle_toggle_all shown v).deselected_hashes shown
        ≡ (if all_selected v.deselected_hashes shown then 0 else length shown))
      × ((hash : String)
          → has (map source_hash shown) hash ≡ false
          → is_selected (handle_toggle_all shown v).deselected_hashes hash
            ≡ is_selected v.deselected_hashes hash)
unfolding visible_selected_count handle_toggle_all
handle_toggle_all_lem shown v =
    let hs = map source_hash shown in
    let value = all_selected v.deselected_hashes shown in
    (
      count_marked hs value v.deselected_hashes shown (All-has-map hs shown (λ h e. e)),
      λ hash e. rw (is_selected-mark_all hs value v.deselected_hashes hash, e) refl,
    )

length-filter-filter :
    {A : Type 0} (keep q : A → Bool) (xs : List A)
    → length (filter keep (filter q xs)) ≤ length (filter keep xs)
length-filter-filter keep q [] = omega arith
length-filter-filter keep q (x ∷ xs) = ground (arith, length-filter-filter keep q xs)

-- At most as many suggestions are seen selected as pairs are sent, and exactly as many if no
-- search hides any.
pub visible_selected_count-le :
    (platform : Platform) (amount_text : ℤ → String) (v : View)
    (suggestions : List ReconciliationPairSuggestion)
    → (visible_selected_count v.deselected_hashes
          (filtered_suggestions platform amount_text v suggestions)
        ≤ length (pairs_to_link v.deselected_hashes suggestions))
      × (is_blank v.search_term ≡ true
          → visible_selected_count v.deselected_hashes
              (filtered_suggestions platform amount_text v suggestions)
            ≡ length (pairs_to_link v.deselected_hashes suggestions))
unfolding visible_selected_count pairs_to_link filtered_suggestions
visible_selected_count-le platform amount_text v suggestions =
    let keep =
      λ (s : ReconciliationPairSuggestion). is_selected v.deselected_hashes (source_hash s) in
    let q = is_match platform amount_text (platform.to_lower v.search_term) in
    let size =
      length-map {B = String × String}
        (λ (s : ReconciliationPairSuggestion). (source_hash s, s.target_transaction.content_hash))
        (filter keep suggestions) in
    elim (Bool-cases (is_blank v.search_term)) [
      | inl e ↦ rw (e, size) (omega arith, λ _. refl)
      | inr e ↦ rw (e, size) (length-filter-filter keep q suggestions, λ h. absurd (false≢true h))
    ]
