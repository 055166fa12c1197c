-- ===== src/Payslips/Sums.antt =====
-- The totals above the list.
use cogni_cash.Base.{ℕ, String, ◌≡◌, ◌∙◌, refl, true, Option, none, some, List, [], ◌∷◌, filter}
use cogni_cash.Base.Int.{ℤ, pos, ◌+ℤ◌, sum_of, sum_from-eq-sum_of, +ℤ_assoc, zero_add, add_zero}
use cogni_cash.Base.Sums.{sum_of-sort}
use cogni_cash.Base.Platform.{Platform}
use cogni_cash.Types.{Payslip, Bonus, PayslipSummary}
use cogni_cash.Payslips.{
  View, Totals, add_payslip, totals_from, no_totals, period_totals, has_filter, bonuses_of, keeps,
  payslip_order, filtered_payslips,
}

abbrev pub bonus_sum : Payslip → ℤ
bonus_sum p = sum_of (λ (b : Bonus). b.amount) (bonuses_of p)

-- Totals as sums over a list.
abbrev pub sums_over : List Payslip → Totals
sums_over ps = record {
  gross = sum_of (λ (p : Payslip). p.gross_pay) ps;
  net = sum_of (λ (p : Payslip). p.net_pay) ps;
  payout = sum_of (λ (p : Payslip). p.payout_amount) ps;
  bonuses = sum_of bonus_sum ps;
}

abbrev plus : Totals → Totals → Totals
plus a b = record {
  gross = a.gross +ℤ b.gross;
  net = a.net +ℤ b.net;
  payout = a.payout +ℤ b.payout;
  bonuses = a.bonuses +ℤ b.bonuses;
}

add_payslip_lem :
    (acc : Totals) (p : Payslip)
    → add_payslip acc p ≡ record {
      gross = acc.gross +ℤ p.gross_pay;
      net = acc.net +ℤ p.net_pay;
      payout = acc.payout +ℤ p.payout_amount;
      bonuses = acc.bonuses +ℤ bonus_sum p;
    }
unfolding add_payslip
add_payslip_lem acc p =
    rw (sum_from-eq-sum_of (λ (b : Bonus). b.amount) (pos 0) (bonuses_of p), zero_add (bonus_sum p))
      refl

same_totals :
    {g g' n n' q q' b b' : ℤ}
    → g ≡ g'
    → n ≡ n'
    → q ≡ q'
    → b ≡ b'
    → ◌≡◌ {A = Totals}
        (record { gross = g; net = n; payout = q; bonuses = b })
        (record { gross = g'; net = n'; payout = q'; bonuses = b' })
same_totals h k l m = rw (h, k, l, m) refl

totals_from_lem : (acc : Totals) (ps : List Payslip) → totals_from acc ps ≡ plus acc (sums_over ps)
unfolding totals_from sum_of
totals_from_lem acc [] =
    same_totals (add_zero acc.gross) (add_zero acc.net) (add_zero acc.payout) (add_zero acc.bonuses)
totals_from_lem acc (p ∷ ps) =
    let rest = sums_over ps in
    rw (totals_from_lem (add_payslip acc p) ps, add_payslip_lem acc p)
      (same_totals (+ℤ_assoc acc.gross p.gross_pay rest.gross) (+ℤ_assoc acc.net p.net_pay rest.net)
        (+ℤ_assoc acc.payout p.payout_amount rest.payout)
        (+ℤ_assoc acc.bonuses (bonus_sum p) rest.bonuses))

totals_from-none : (ps : List Payslip) → totals_from no_totals ps ≡ sums_over ps
totals_from-none ps =
    totals_from_lem no_totals ps
    ∙ same_totals (zero_add (sums_over ps).gross) (zero_add (sums_over ps).net)
        (zero_add (sums_over ps).payout) (zero_add (sums_over ps).bonuses)

module _ (scale : ℤ → ℤ → ℤ → ℤ) (platform : Platform) (to_text : ℕ → String) (v : View) where
  sums_over-filtered_payslips :
      (payslips : List Payslip)
      → sums_over (filtered_payslips scale platform to_text v payslips)
        ≡ sums_over (filter (keeps to_text v) payslips)
  unfolding filtered_payslips
  sums_over-filtered_payslips payslips =
      let order = payslip_order scale platform v in
      let kept = filter (keeps to_text v) payslips in
      same_totals (sum_of-sort (λ (p : Payslip). p.gross_pay) order kept)
        (sum_of-sort (λ (p : Payslip). p.net_pay) order kept)
        (sum_of-sort (λ (p : Payslip). p.payout_amount) order kept)
        (sum_of-sort bonus_sum order kept)

  -- Under a filter the totals are the sums over the payslips that fit it, whatever the order and
  -- the summary.
  pub period_totals_lem :
      (summary : Option PayslipSummary) (payslips : List Payslip)
      → has_filter v ≡ true
      → period_totals v summary (filtered_payslips scale platform to_text v payslips)
        ≡ sums_over (filter (keeps to_text v) payslips)
  unfolding period_totals
  period_totals_lem none payslips h =
      totals_from-none (filtered_payslips scale platform to_text v payslips)
      ∙ sums_over-filtered_payslips payslips
  period_totals_lem (some summary) payslips h = rw h (
      totals_from-none (filtered_payslips scale platform to_text v payslips)
      ∙ sums_over-filtered_payslips payslips)
