-- ===== src/Subscriptions/Totals.antt =====
-- The total of the page and that of the dashboard's card.
use cogni_cash.Base.{
  ℕ, ◌≡◌, refl, Bool, true, false, not, ◌&&◌, ◌||◌, List, [], ◌∷◌, if◌then◌else◌, filter, all,
  and-eq-true_iff, nat_eq, nat_eq_iff, arith, Bool-cases, inl, inr,
}
use cogni_cash.Base.Int.{ℤ, pos, sum_of, sum_from-eq-sum_of}
use cogni_cash.Base.Sums.{sum_of-filter}
use cogni_cash.Types.{Subscription}
use cogni_cash.Subscriptions.{
  is_active, is_pending, is_yearly, or_one, monthly_amount, total_monthly, card_amount, card_total,
}

-- A subscription that both totals treat alike: it is not about to end, and is paid every year if it
-- is paid by years.
abbrev pub is_regular : Subscription → Bool
is_regular s = not (is_pending s) && (not (is_yearly s) || nat_eq (or_one s.billing_interval) 1)

every_year : (yearly : Bool) (n : ℕ) → (not yearly || nat_eq n 1) ≡ true → yearly ≡ true → n ≡ 1
every_year true n h e = (nat_eq_iff n 1).0 h
every_year false n h e = cc

module _ (quotient : ℤ → ℕ → ℤ) where
  regular_amount :
      (s : Subscription) → is_regular s ≡ true → monthly_amount quotient s ≡ card_amount quotient s
  regular_amount s h = elim (Bool-cases (is_yearly s)) [
    | inl e ↦
        let parts = (and-eq-true_iff (not (is_pending s)) _).0 h in
        rw (e, every_year (is_yearly s) (or_one s.billing_interval) parts.1 e) refl
    | inr e ↦ rw e refl
  ]

  regular_share :
      (s : Subscription)
      → is_regular s ≡ true
      → (if is_active s || is_pending s then monthly_amount quotient s else pos 0)
        ≡ (if is_active s then card_amount quotient s else pos 0)
  regular_share s h =
      let parts = (and-eq-true_iff (not (is_pending s)) _).0 h in
      let not_pending : is_pending s ≡ false = ground (arith, parts.0) in
      rw (not_pending, regular_amount s h) (or_false (is_active s) (card_amount quotient s))
    where
      or_false : (b : Bool) (a : ℤ) → (if b || false then a else pos 0) ≡ (if b then a else pos 0)
      or_false true a = refl
      or_false false a = refl

  regular_sums :
      (subs : List Subscription)
      → all is_regular subs ≡ true
      → sum_of (λ s. if is_active s || is_pending s then monthly_amount quotient s else pos 0) subs
        ≡ sum_of (λ s. if is_active s then card_amount quotient s else pos 0) subs
  unfolding sum_of
  regular_sums [] h = refl
  regular_sums (s ∷ subs) h =
      let parts = (and-eq-true_iff (is_regular s) (all is_regular subs)).0 h in
      rw (regular_share s parts.0, regular_sums subs parts.1) refl

  -- If no subscription is about to end and those paid by years are paid every year, the total of
  -- the subscriptions page is that of the dashboard's card.
  pub total_monthly-card_total :
      (subs : List Subscription)
      → all is_regular subs ≡ true
      → total_monthly quotient subs ≡ card_total quotient subs
  unfolding total_monthly card_total
  total_monthly-card_total subs h =
      rw
        (
          sum_from-eq-sum_of (monthly_amount quotient) (pos 0)
              (filter (λ s. is_active s || is_pending s) subs),
          sum_from-eq-sum_of (card_amount quotient) (pos 0) (filter is_active subs),
          sum_of-filter (monthly_amount quotient) (λ s. is_active s || is_pending s) subs,
          sum_of-filter (card_amount quotient) is_active subs,
          regular_sums subs h,
        )
        refl
