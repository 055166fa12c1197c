-- ===== src/Payslips/Adjusted.antt =====
-- The adjusted net pay.
use cogni_cash.Base.{
  ◌≡◌, refl, Bool, true, false, not, ◌&&◌, List, [], ◌∷◌, if◌then◌else◌, All, Bool-cases, inl, inr,
  arith, subst, sym,
}
use cogni_cash.Base.Int.{
  ℤ, pos, ◌+ℤ◌, ◌≤ℤ◌, abs, lt_ℤ, eq_ℤ, sum_of, sum_from-eq-sum_of, zero_add, add_zero, eq_ℤ_iff,
  int_laws, parts_of_eq,
}
use cogni_cash.Base.Collections.{JsSet, has}
use cogni_cash.Types.{Payslip, Bonus}
use cogni_cash.Payslips.{excluded_bonus_total, get_adjusted_netto, without_bonuses, bonuses_of}

-- A bonus as far as it is excluded.
abbrev pub excluded_amount : JsSet → Bonus → ℤ
excluded_amount excluded b = if has excluded b.description then b.amount else pos 0

excluded_bonus_total_lem :
    (excluded : JsSet) (p : Payslip)
    → excluded_bonus_total excluded p ≡ sum_of (excluded_amount excluded) (bonuses_of p)
unfolding excluded_bonus_total
excluded_bonus_total_lem excluded p =
    rw
      (
        sum_from-eq-sum_of (excluded_amount excluded) (pos 0) (bonuses_of p),
        zero_add (sum_of (excluded_amount excluded) (bonuses_of p)),
      )
      refl

sum_of-nonneg :
    (excluded : JsSet) (bs : List Bonus)
    → All (λ b. pos 0 ≤ℤ b.amount) bs
    → pos 0 ≤ℤ sum_of (excluded_amount excluded) bs
unfolding sum_of
sum_of-nonneg excluded [] h = omega int_laws
sum_of-nonneg excluded (b ∷ bs) (h, hs) = elim (Bool-cases (has excluded b.description)) [
  | inl e ↦ rw e (omega (int_laws, sum_of-nonneg excluded bs hs))
  | inr e ↦ rw e (omega (int_laws, sum_of-nonneg excluded bs hs))
]

no_total : (total : ℤ) → pos 0 ≤ℤ total → lt_ℤ (pos 0) total ≡ false → total ≡ pos 0
no_total total h e = ground arith

no_custom : (custom : ℤ) → custom ≡ pos 0 → abs custom ≡ pos 0
unfolding abs
no_custom custom h = rw h refl

with_leasing :
    (exclude_leasing : Bool) (adjusted total net custom : ℤ)
    → adjusted +ℤ total ≡ net
    → (if exclude_leasing && not (eq_ℤ custom (pos 0)) then adjusted +ℤ abs custom else adjusted)
        +ℤ total
      ≡ (if exclude_leasing then net +ℤ abs custom else net)
with_leasing false adjusted total net custom h = h
with_leasing true adjusted total net custom h = elim (Bool-cases (eq_ℤ custom (pos 0))) [
  | inl e ↦ rw (e, no_custom custom ((eq_ℤ_iff custom (pos 0)).0 e), ← add_zero net) h
  | inr e ↦ rw e (omega (int_laws, parts_of_eq h))
]

module _ (scale : ℤ → ℤ → ℤ → ℤ) where
  without_bonuses_lem :
      (p : Payslip) (total : ℤ)
      → pos 0 ≤ℤ total
      → without_bonuses scale p total false +ℤ total ≡ p.net_pay
  without_bonuses_lem p total h = elim (Bool-cases (lt_ℤ (pos 0) total)) [
    | inl e ↦ rw e (omega int_laws)
    | inr e ↦ rw e (omega (int_laws, parts_of_eq (no_total total h e)))
  ]

  -- Without the proportional mode and with no negative bonus, the adjusted net pay and the
  -- excluded bonuses add up to the net pay, with the deductions added back if leasing is excluded.
  pub get_adjusted_netto_lem :
      (p : Payslip) (excluded : JsSet) (exclude_leasing : Bool)
      → All (λ b. pos 0 ≤ℤ b.amount) (bonuses_of p)
      → get_adjusted_netto scale p excluded exclude_leasing false
          +ℤ sum_of (excluded_amount excluded) (bonuses_of p)
        ≡ (if exclude_leasing then p.net_pay +ℤ abs p.custom_deductions else p.net_pay)
  unfolding get_adjusted_netto
  get_adjusted_netto_lem p excluded exclude_leasing h =
      let total = excluded_bonus_total excluded p in
      let sum = excluded_bonus_total_lem excluded p in
      let nonneg = subst (λ a. pos 0 ≤ℤ a) (sym sum) (sum_of-nonneg excluded (bonuses_of p) h) in
      rw (← sum) (
        with_leasing exclude_leasing (without_bonuses scale p total false) total p.net_pay
          p.custom_deductions (without_bonuses_lem p total nonneg))
