-- ===== src/Forecasting/Display.antt =====
-- The lines of the table of predictions.
use cogni_cash.Base.{
  ℕ, ◌≤◌, String, ◌==◌, ◌≡◌, refl, Bool, false, ◌&&◌, Option, none, some, List, [], ◌∷◌, map,
  filter, length, arith, Bool-cases, inl, inr, ap, eq_iff,
}
use cogni_cash.Base.Collections.{has, Distinct}
use cogni_cash.Types.{PredictedTransaction}
use cogni_cash.Forecasting.Table.{
  DisplayItem, row, expansion, can_expand, is_expanded, display_items,
}

-- The predictions of the rows, and those whose comparison is open.
abbrev pub rows : List DisplayItem → List PredictedTransaction
rows [] = []
rows (row p c e ∷ items) = p ∷ rows items
rows (expansion p ∷ items) = rows items

abbrev pub opened : List DisplayItem → List PredictedTransaction
opened [] = []
opened (row p c e ∷ items) = opened items
opened (expansion p ∷ items) = p ∷ opened items

-- Every comparison stands under the row of its prediction, which the first argument is.
abbrev pub IsPlaced : Option PredictedTransaction → List DisplayItem → Type 0
IsPlaced above [] = Unit
IsPlaced above (row p c e ∷ items) = IsPlaced (some p) items
IsPlaced above (expansion p ∷ items) = (above ≡ some p) × IsPlaced none items

abbrev ids : List PredictedTransaction → List String
ids = map (λ (p : PredictedTransaction). p.transaction.id)

module _ (month_of : String → Option (ℕ × ℕ)) (now : Option (ℕ × ℕ))
    (expanded_id : Option String) where
  abbrev pub is_open : PredictedTransaction → Bool
  is_open p = can_expand month_of now p && is_expanded month_of now expanded_id p

  abbrev items : List PredictedTransaction → List DisplayItem
  items = display_items month_of now expanded_id

  rows-display_items : (ps : List PredictedTransaction) → rows (items ps) ≡ ps
  unfolding display_items
  rows-display_items [] = refl
  rows-display_items (p ∷ ps) = elim (Bool-cases (is_open p)) [
    | inl e ↦ rw e (ap (◌∷◌ p) (rows-display_items ps))
    | inr e ↦ rw e (ap (◌∷◌ p) (rows-display_items ps))
  ]

  opened-display_items : (ps : List PredictedTransaction) → opened (items ps) ≡ filter is_open ps
  unfolding display_items
  opened-display_items [] = refl
  opened-display_items (p ∷ ps) = elim (Bool-cases (is_open p)) [
    | inl e ↦ rw e (ap (◌∷◌ p) (opened-display_items ps))
    | inr e ↦ rw e (opened-display_items ps)
  ]

  display_items-IsPlaced :
      (above : Option PredictedTransaction) (ps : List PredictedTransaction)
      → IsPlaced above (items ps)
  unfolding display_items
  display_items-IsPlaced above [] = tt
  display_items-IsPlaced above (p ∷ ps) = elim (Bool-cases (is_open p)) [
    | inl e ↦ rw e (refl, display_items-IsPlaced none ps)
    | inr e ↦ rw e (display_items-IsPlaced (some p) ps)
  ]

none_open :
    (keep : PredictedTransaction → Bool) (i : String) (ps : List PredictedTransaction)
    → has (ids ps) i ≡ false
    → length (filter (λ p. keep p && (i == p.transaction.id)) ps) ≡ 0
unfolding has
none_open keep i [] h = refl
none_open keep i (p ∷ ps) h =
    ground (arith, none_open keep i ps, eq_iff p.transaction.id i, eq_iff i p.transaction.id)

one_open :
    (keep : PredictedTransaction → Bool) (i : String) (ps : List PredictedTransaction)
    → Distinct (ids ps)
    → length (filter (λ p. keep p && (i == p.transaction.id)) ps) ≤ 1
one_open keep i [] d = omega arith
one_open keep i (p ∷ ps) (n, d) = ground (
  arith,
  one_open keep i ps d,
  none_open keep i ps,
  eq_iff p.transaction.id i,
  eq_iff i p.transaction.id,
)

none_chosen :
    (keep : PredictedTransaction → Bool) (ps : List PredictedTransaction)
    → length (filter (λ p. keep p && false) ps) ≤ 1
none_chosen keep [] = omega arith
none_chosen keep (p ∷ ps) = ground (arith, none_chosen keep ps)

at_most_one :
    (month_of : String → Option (ℕ × ℕ)) (now : Option (ℕ × ℕ)) (expanded_id : Option String)
    (ps : List PredictedTransaction)
    → Distinct (ids ps)
    → length (filter (is_open month_of now expanded_id) ps) ≤ 1
at_most_one month_of now none ps d = none_chosen (can_expand month_of now) ps
at_most_one month_of now (some i) ps d = one_open (can_expand month_of now) i ps d

-- For predictions with different ids the table has a row for each prediction in their order and at
-- most one open comparison, which stands under the row of its prediction.
pub display_items_lem :
    (month_of : String → Option (ℕ × ℕ)) (now : Option (ℕ × ℕ)) (expanded_id : Option String)
    (ps : List PredictedTransaction)
    → Distinct (ids ps)
    → (rows (display_items month_of now expanded_id ps) ≡ ps)
      × (length (opened (display_items month_of now expanded_id ps)) ≤ 1)
      × IsPlaced none (display_items month_of now expanded_id ps)
display_items_lem month_of now expanded_id ps d = (
  rows-display_items month_of now expanded_id ps,
  rw (opened-display_items month_of now expanded_id ps) (at_most_one month_of now expanded_id ps d),
  display_items-IsPlaced month_of now expanded_id none ps,
)
