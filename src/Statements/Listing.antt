-- ===== src/Statements/Listing.antt =====
-- Which bank statements are listed, and in which order.
use mathlib.Core.List.{Mem, Perm}
use mathlib.Core.List.Perm
use cogni_cash.Base.{
  String, ◌==◌, eq_iff, ◌≡◌, ◌≢◌, ◌↔◌, Bool, true, false, not, ◌&&◌, List, if◌then◌else◌, filter,
  arith,
}
use cogni_cash.Base.Int.{ℤ, pos}
use cogni_cash.Base.Sort.{sort-perm, sort-IsSorted, IsSorted, IsConsistent, directed-IsConsistent}
use cogni_cash.Base.Order.{
  three_way_text-IsConsistent, three_way_amount-IsConsistent, on_key-IsConsistent,
}
use cogni_cash.Base.Members.{mem-filter}
use cogni_cash.Types.{BankStatementSummary}
use cogni_cash.Statements.{
  View, SortField, statement_info, statement_type, period, transaction_count, new_balance,
  type_text, keeps, filtered_statements, compare_on, statement_order, sorted_statements,
}

-- What a statement has to meet under the applied filters.
pub record Fits (year_of : String → String) (v : View) (s : BankStatementSummary) : Type 0 where
  pub of_year : v.applied_year ≢ "All" → year_of s.end_date ≡ v.applied_year
  pub of_type : v.applied_type ≢ "All" → type_text s.statement_type ≡ v.applied_type
  pub of_account : v.applied_account ≢ "All" → s.iban ≡ v.applied_account

chosen_iff : (s t : String) → ((not (s == "All") && not (t == s)) ≡ false) ↔ (s ≢ "All" → t ≡ s)
chosen_iff s t = ground (arith, eq_iff s "All", eq_iff t s)

none_iff :
    (a b c : Bool)
    → ((if a then false else if b then false else if c then false else true) ≡ true)
      ↔ ((a ≡ false) × (b ≡ false) × (c ≡ false))
none_iff a b c = ground arith

module _ (year_of : String → String) (time_of : String → ℤ) (v : View) where
  keeps_iff : (s : BankStatementSummary) → (keeps year_of time_of v s ≡ true) ↔ Fits year_of v s
  unfolding keeps
  keeps_iff s =
      let of_year = chosen_iff v.applied_year (year_of s.end_date) in
      let of_type = chosen_iff v.applied_type (type_text s.statement_type) in
      let of_account = chosen_iff v.applied_account s.iban in
      let all = none_iff _ _ _ in
      (
        λ h.
            let (a, b, c) = all.0 h in
            record { of_year = of_year.0 a; of_type = of_type.0 b; of_account = of_account.0 c },
        λ f. all.1 (of_year.1 f.of_year, of_type.1 f.of_type, of_account.1 f.of_account),
      )

  compare_on-IsConsistent : (field : SortField) → IsConsistent (compare_on year_of time_of field)
  compare_on-IsConsistent statement_info =
      on_key-IsConsistent _ (λ s. s.iban) three_way_text-IsConsistent
  compare_on-IsConsistent statement_type =
      on_key-IsConsistent _ (λ s. type_text s.statement_type) three_way_text-IsConsistent
  compare_on-IsConsistent period =
      on_key-IsConsistent _ (λ s. time_of s.end_date) three_way_amount-IsConsistent
  compare_on-IsConsistent transaction_count =
      on_key-IsConsistent _ (λ s. pos s.transaction_count) three_way_amount-IsConsistent
  compare_on-IsConsistent new_balance =
      on_key-IsConsistent _ (λ s. s.new_balance) three_way_amount-IsConsistent

  -- A bank statement is listed exactly if it was fetched and fits the applied filters; the list
  -- has each as often as it was fetched and stands in the chosen order.
  pub sorted_statements-IsSorted :
      (statements : List BankStatementSummary)
      → ((s : BankStatementSummary)
          → Mem s (sorted_statements year_of time_of v statements)
            ↔ (Mem s statements × Fits year_of v s))
        × Perm
            (sorted_statements year_of time_of v statements)
            (filtered_statements year_of time_of v statements)
        × IsSorted
            (statement_order year_of time_of v)
            (sorted_statements year_of time_of v statements)
  unfolding sorted_statements filtered_statements
  sorted_statements-IsSorted statements =
      let order = statement_order year_of time_of v in
      let kept = filter (keeps year_of time_of v) statements in
      let perm = sort-perm order kept in
      (
        λ s.
            let member = mem-filter (keeps year_of time_of v) s statements in
            (
              λ m. let k = member.0 ((Perm.mem_iff perm).0 m) in (k.0, (keeps_iff s).0 k.1),
              λ k. (Perm.mem_iff perm).1 (member.1 (k.0, (keeps_iff s).1 k.1)),
            ),
        perm,
        sort-IsSorted order
            (directed-IsConsistent _ (compare_on-IsConsistent v.sort_field) v.sort_direction) kept,
      )
