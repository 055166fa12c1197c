-- ===== src/Invoices/Selection.antt =====
-- The selection of invoices refines a predicate on ids.
use cogni_cash.Base.{
  String, ◌==◌, ◌≡◌, refl, Bool, false, not, List, [], ◌∷◌, if◌then◌else◌, ◌∙◌, ap,
}
use cogni_cash.Base.Collections.{has, has-toggle}
use cogni_cash.Invoices.{toggle_select_invoice}
use cogni_cash.Invoices.Updates.{Page, deleted, handle_apply_filters, clear_filters}

-- What the user does to the selection.
pub data Click : Type 0 where
  row_clicked : String → Click
  filters_applied filters_cleared invoices_deleted : Click

abbrev pub clicked : Click → Page → Page
clicked (row_clicked id) p = record p { selected_ids = toggle_select_invoice id p.selected_ids }
clicked filters_applied p = handle_apply_filters p
clicked filters_cleared p = clear_filters p
clicked invoices_deleted p = deleted p

abbrev pub after_clicks : List Click → Page → Page
after_clicks [] p = p
after_clicks (c ∷ cs) p = after_clicks cs (clicked c p)

-- The specification: which ids are selected.
abbrev pub Selected : Type 0
Selected = String → Bool

abbrev pub spec_clicked : Click → Selected → Selected
spec_clicked (row_clicked id) chosen x = if id == x then not (chosen x) else chosen x
spec_clicked filters_applied chosen x = false
spec_clicked filters_cleared chosen x = false
spec_clicked invoices_deleted chosen x = false

abbrev pub spec_after : List Click → Selected → Selected
spec_after [] chosen = chosen
spec_after (c ∷ cs) chosen = spec_after cs (spec_clicked c chosen)

abbrev pub selected : Page → Selected
selected p x = has p.selected_ids x

-- One click keeps the abstraction.
selected-clicked :
    (c : Click) (p : Page) (x : String) → selected (clicked c p) x ≡ spec_clicked c (selected p) x
unfolding toggle_select_invoice deleted handle_apply_filters clear_filters has
selected-clicked (row_clicked id) p x = has-toggle id p.selected_ids x
selected-clicked filters_applied p x = refl
selected-clicked filters_cleared p x = refl
selected-clicked invoices_deleted p x = refl

-- After any sequence of clicks on boxes, applied or cleared filters and deletions, the selection
-- holds exactly the ids that the specification selects, where a click changes one id and
-- everything else selects none.
pub selected-after_clicks :
    (cs : List Click) (p : Page) → selected (after_clicks cs p) ≡ spec_after cs (selected p)
selected-after_clicks [] p = refl
selected-after_clicks (c ∷ cs) p =
    selected-after_clicks cs (clicked c p) ∙ ap (spec_after cs) (λ i x. selected-clicked c p x i)
