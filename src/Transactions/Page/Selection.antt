-- ===== src/Transactions/Page/Selection.antt =====
-- Selecting rows, and the dialog that links the selected rows to a subscription.
use cogni_cash.Base.{
  String, ◌==◌, ◌≡◌, refl, ◌≢◌, ◌<◌, Bool, true, false, not, ◌&&◌, List, [], if◌then◌else◌, arith,
  length, length-map, All, All-filter, ltb, nat_eq, Bool-cases, inl, inr, eq_refl,
}
use cogni_cash.Base.Collections.{
  has, set_of, Distinct, set_of-eq_of_Distinct, set_of-Distinct, has-toggle, toggle-Distinct,
}
use cogni_cash.Types.{Transaction}
use cogni_cash.Transactions.Page.{
  Page, hashes, toggle_select, toggle_select_all, link_transactions, link_hashes,
}

module _ (rows : List Transaction) (p : Page) where
  -- The box in the table's head selects exactly the shown rows, for rows with different hashes;
  -- clicking it twice from a selection of another size selects nothing.
  pub toggle_select_all_twice :
      Distinct (hashes rows)
      → 0 < length rows
      → length p.selected_hashes ≢ length rows
      → ((toggle_select_all rows p).selected_hashes ≡ hashes rows)
        × ((toggle_select_all rows (toggle_select_all rows p)).selected_hashes ≡ [])
  unfolding toggle_select_all
  toggle_select_all_twice d pos ne =
      let same = set_of-eq_of_Distinct (hashes rows) d in
      let size = length-map (λ (t : Transaction). t.content_hash) rows in rw same (ground arith)

  -- The dialog shows no row whose hash it would not send.
  pub link_transactions-hashes :
      (clicked : Transaction)
      → All
          (λ t. has (link_hashes clicked p) t.content_hash ≡ true)
          (link_transactions rows clicked p)
  unfolding link_transactions link_hashes
  link_transactions-hashes clicked = elim (Bool-cases (ltb 1 (length p.selected_hashes))) [
    | inl e ↦ rw e (All-filter _ (λ t. has p.selected_hashes t.content_hash) rows (λ t h. h))
    | inr e ↦ rw e (unfold has in rw (eq_refl clicked.content_hash) (refl, tt))
  ]

abbrev pub IsValid : Page → Type 0
IsValid p = Distinct p.selected_hashes

-- Clicking the box of a row changes whether that row is selected, and nothing else.
pub has-toggle_select :
    (hash : String) (p : Page) (other : String)
    → has (toggle_select hash p).selected_hashes other
      ≡ (if hash == other then not (has p.selected_hashes other) else has p.selected_hashes other)
unfolding toggle_select
has-toggle_select hash p other = has-toggle hash p.selected_hashes other

-- Clicking the box of a row or of the table's head keeps the selection free of repetitions.
pub handlers-IsValid :
    (p : Page) (rows : List Transaction) (hash : String)
    → IsValid p
    → IsValid (toggle_select hash p) × IsValid (toggle_select_all rows p)
unfolding toggle_select toggle_select_all
handlers-IsValid p rows hash v = (
  toggle-Distinct hash _ v,
  every (nat_eq (length p.selected_hashes) (length rows) && ltb 0 (length rows)),
)
  where
    every : (b : Bool) → Distinct (if b then [] else set_of (hashes rows))
    every true = tt
    every false = set_of-Distinct (hashes rows)
