-- ===== src/Reconcile/Tests.antt =====
-- The theorems on the selection at concrete suggestions.
use cogni_cash.Base.{String, ◌≡◌, true, false, none, List, [], ◌∷◌, map, if◌then◌else◌, length}
use cogni_cash.Base.Collections.{has}
use cogni_cash.Types.{ReconciliationPairSuggestion}
use cogni_cash.Transactions.Samples.{salary, rent, transfer}
use cogni_cash.Reconcile.{
  View, source_hash, is_selected, visible_selected_count, all_selected, handle_toggle_all,
}
use cogni_cash.Reconcile.Selection.{handle_toggle_all_lem}

abbrev pairs : List ReconciliationPairSuggestion
pairs =
    record { source_transaction = rent; target_transaction = salary; match_score = 90 }
    ∷ record { source_transaction = transfer; target_transaction = salary; match_score = 70 }
    ∷ []

-- The search leaves one suggestion, and the other one is deselected.
abbrev looking : View
looking = record {
  search_term = "Rent";
  deselected_hashes = ("h3", true) ∷ [];
  manual_search_input = "";
  manual_date_from = "";
  manual_date_to = "";
  applied_manual_filters = record { search = ""; date_from = ""; date_to = "" };
  selected_manual_settlement = none;
  selected_manual_target = none;
}

handle_toggle_all_lem_example :
    (visible_selected_count (handle_toggle_all pairs looking).deselected_hashes pairs
      ≡ (if all_selected looking.deselected_hashes pairs then 0 else length pairs))
    × ((hash : String)
        → has (map source_hash pairs) hash ≡ false
        → is_selected (handle_toggle_all pairs looking).deselected_hashes hash
          ≡ is_selected looking.deselected_hashes hash)
handle_toggle_all_lem_example = handle_toggle_all_lem pairs looking
