-- ===== src/Invoices/Splits.antt =====
-- What the splits of an invoice add up to.
use cogni_cash.Base.{
  ℕ, zero, suc, ◌≡◌, true, not, Option, none, some, List, [], ◌∷◌, ◌++◌, if◌then◌else◌, filter,
  Bool-cases, inl, inr, All,
}
use cogni_cash.Base.Int.{
  ℤ, pos, ◌+ℤ◌, ◌-ℤ◌, lt_ℤ, sum_of, sum_from-eq-sum_of, sum_of-append, int_laws, parts_of_eq,
  zero_add,
}
use cogni_cash.Base.Platform.{Platform}
use cogni_cash.Invoices.Form.{
  Form, SplitDraft, split_amount, split_total, remaining_amount, total_amount, new_split,
  handle_add_split, handle_remove_split, with_category, sent_splits,
}

split_total_lem : (splits : List SplitDraft) → split_total splits ≡ sum_of split_amount splits
unfolding split_total
split_total_lem splits =
    rw (sum_from-eq-sum_of split_amount (pos 0) splits) (zero_add (sum_of split_amount splits))

split_total-append :
    (splits : List SplitDraft) (s : SplitDraft)
    → split_total (splits ++ (s ∷ [])) ≡ split_total splits +ℤ split_amount s
unfolding sum_of
split_total-append splits s =
    rw
      (
        split_total_lem (splits ++ (s ∷ [])),
        split_total_lem splits,
        sum_of-append split_amount splits (s ∷ []),
      )
      (omega int_laws)

filled :
    (total old : ℤ) → lt_ℤ (pos 0) (total -ℤ old) ≡ true → total -ℤ (old +ℤ (total -ℤ old)) ≡ pos 0
filled total old h = omega int_laws

kept : (total old : ℤ) → total -ℤ (old +ℤ pos 0) ≡ total -ℤ old
kept total old = omega int_laws

remaining_after :
    (total old : ℤ)
    → let left = total -ℤ old in
      total -ℤ (old +ℤ (if lt_ℤ (pos 0) left then left else pos 0))
      ≡ (if lt_ℤ (pos 0) left then pos 0 else left)
remaining_after total old = elim (Bool-cases (lt_ℤ (pos 0) (total -ℤ old))) [
  | inl e ↦ rw e (filled total old e)
  | inr e ↦ rw e (kept total old)
]

-- After a split is added nothing remains, or what was overspent before stays overspent.
pub remaining_amount-handle_add_split :
    (platform : Platform) (form : Form)
    → remaining_amount platform (handle_add_split platform form) ≡ (
        if lt_ℤ (pos 0) (remaining_amount platform form)
        then pos 0
        else remaining_amount platform form)
unfolding remaining_amount handle_add_split
remaining_amount-handle_add_split platform form =
    let total = total_amount platform form.amount in
    let old = split_total form.splits in
    rw (split_total-append form.splits (new_split platform (total -ℤ old)))
      (remaining_after total old)

-- The split at a position.
abbrev at : ℕ → List SplitDraft → Option SplitDraft
at index [] = none
at zero (s ∷ splits) = some s
at (suc index) (s ∷ splits) = at index splits

abbrev amount_at : ℕ → List SplitDraft → ℤ
amount_at index [] = pos 0
amount_at zero (s ∷ splits) = split_amount s
amount_at (suc index) (s ∷ splits) = amount_at index splits

removed_sum :
    (index : ℕ) (splits : List SplitDraft)
    → sum_of split_amount (handle_remove_split index splits) +ℤ amount_at index splits
      ≡ sum_of split_amount splits
unfolding handle_remove_split sum_of
removed_sum index [] = omega int_laws
removed_sum zero (s ∷ splits) = omega int_laws
removed_sum (suc index) (s ∷ splits) = omega (int_laws, parts_of_eq (removed_sum index splits))

-- Removing a split takes its amount off the total.
pub split_total-handle_remove_split :
    (index : ℕ) (splits : List SplitDraft)
    → split_total (handle_remove_split index splits) +ℤ amount_at index splits ≡ split_total splits
split_total-handle_remove_split index splits =
    rw (split_total_lem (handle_remove_split index splits), split_total_lem splits)
      (removed_sum index splits)

-- The amounts of the splits that are not sent.
abbrev pub unsent : List SplitDraft → ℤ
unsent splits = sum_of split_amount (filter (λ s. not (with_category s)) splits)

sum_of-sent_splits :
    (splits : List SplitDraft)
    → sum_of split_amount (sent_splits splits) +ℤ unsent splits ≡ sum_of split_amount splits
unfolding sent_splits sum_of
sum_of-sent_splits [] = omega int_laws
sum_of-sent_splits (s ∷ splits) = elim (Bool-cases (with_category s)) [
  | inl e ↦ rw e (omega (int_laws, parts_of_eq (sum_of-sent_splits splits)))
  | inr e ↦ rw e (omega (int_laws, parts_of_eq (sum_of-sent_splits splits)))
]

sent_splits-All :
    (splits : List SplitDraft) → All (λ s. with_category s ≡ true) (sent_splits splits)
unfolding sent_splits
sent_splits-All [] = tt
sent_splits-All (s ∷ splits) = elim (Bool-cases (with_category s)) [
  | inl e ↦ rw e (e, sent_splits-All splits)
  | inr e ↦ rw e (sent_splits-All splits)
]

-- Every split that is sent has a category, and the splits sent and those left out add up to the
-- total of the splits in the form.
pub split_total-sent_splits :
    (splits : List SplitDraft)
    → All (λ s. with_category s ≡ true) (sent_splits splits)
      × (split_total (sent_splits splits) +ℤ unsent splits ≡ split_total splits)
split_total-sent_splits splits = (
  sent_splits-All splits,
  rw (split_total_lem (sent_splits splits), split_total_lem splits) (sum_of-sent_splits splits),
)
