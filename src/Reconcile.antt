-- ===== src/Reconcile.antt =====
-- frontend/src/pages/ReconcilePage.tsx: pairing transactions that settle each other.
pub mod Selection
mod Tests
use cogni_cash.Base.{
  ℕ, String, ◌==◌, Bool, true, false, not, ◌&&◌, ◌||◌, Option, none, some, List, [], ◌∷◌, map,
  if◌then◌else◌, truthy, text_or, text_lt, includes, is_blank, filter, all, length,
}
use cogni_cash.Base.Int.{ℤ, pos, lt_ℤ}
use cogni_cash.Base.Collections.{get, put}
use cogni_cash.Base.Platform.{Platform}
use cogni_cash.Types.{Transaction, ReconciliationPairSuggestion}

pub record ManualFilters : Type 0 where
  pub search : String
  pub date_from : String
  pub date_to : String

-- `Record<string, boolean>`
abbrev pub Deselected : Type 0
Deselected = List (String × Bool)

pub record View : Type 0 where
  pub search_term : String
  pub deselected_hashes : Deselected
  pub manual_search_input : String
  pub manual_date_from : String
  pub manual_date_to : String
  pub applied_manual_filters : ManualFilters
  pub selected_manual_settlement : Option String
  pub selected_manual_target : Option String

abbrev is_true : Option Bool → Bool
is_true none = false
is_true (some b) = b

abbrev pub source_hash : ReconciliationPairSuggestion → String
source_hash s = s.source_transaction.content_hash

-- `!deselectedHashes[sugg.source_transaction.content_hash]`
unfoldable pub is_selected : Deselected → String → Bool
is_selected deselected hash = not (is_true (get deselected hash))

-- A pair of the settlement's and the target's hash.
unfoldable pub pairs_to_link :
    Deselected → List ReconciliationPairSuggestion → List (String × String)
unfolding is_selected
pairs_to_link deselected suggestions =
    map (λ s. (source_hash s, s.target_transaction.content_hash))
      (filter (λ s. is_selected deselected (source_hash s)) suggestions)

unfoldable pub visible_selected_count : Deselected → List ReconciliationPairSuggestion → ℕ
unfolding is_selected
visible_selected_count deselected filtered_suggestions =
    length (filter (λ s. is_selected deselected (source_hash s)) filtered_suggestions)

-- `list.forEach(hash => { state[hash] = value; })`
unfoldable pub mark_all : List String → Bool → Deselected → Deselected
mark_all [] value state = state
mark_all (hash ∷ hashes) value state = mark_all hashes value (put hash value state)

unfoldable pub all_selected : Deselected → List ReconciliationPairSuggestion → Bool
unfolding is_selected
all_selected deselected filtered_suggestions =
    all (λ s. is_selected deselected (source_hash s)) filtered_suggestions

unfoldable pub handle_toggle_all : List ReconciliationPairSuggestion → View → View
handle_toggle_all filtered_suggestions v = record v {
  deselected_hashes =
      mark_all (map source_hash filtered_suggestions)
        (all_selected v.deselected_hashes filtered_suggestions) v.deselected_hashes;
}

-- `onToggle` of a row
unfoldable pub on_toggle : String → View → View
unfolding is_selected
on_toggle hash v = record v {
  deselected_hashes = put hash (is_selected v.deselected_hashes hash) v.deselected_hashes;
}

-- `onSuccess` of the batch
unfoldable pub link_succeeded : View → View
link_succeeded v = record v {
  selected_manual_settlement = none;
  selected_manual_target = none;
  deselected_hashes = [];
}

abbrev both : Option String → Option String → List (String × String)
both none target = []
both (some settlement) none = []
both (some settlement) (some target) =
    if truthy settlement && truthy target then (settlement, target) ∷ [] else []

-- The pair that is sent; without both choices nothing is sent.
unfoldable pub link_manual_pair : View → List (String × String)
link_manual_pair v = both v.selected_manual_settlement v.selected_manual_target

-- `Math.abs(amount).toString()` is the JavaScript engine's.
module _ (platform : Platform) (amount_text : ℤ → String) where
  open platform use {to_lower}

  abbrev pub has_term : String → Option String → Bool
  has_term term field = includes (to_lower (text_or field "")) term

  unfoldable pub is_match : String → ReconciliationPairSuggestion → Bool
  is_match term s =
      has_term term (some s.source_transaction.description)
      || has_term term (some s.target_transaction.description)
      || has_term term s.source_transaction.counterparty_name
      || has_term term s.target_transaction.counterparty_name
      || has_term term (some s.source_transaction.reference)
      || has_term term (some s.target_transaction.reference)
      || includes (amount_text s.source_transaction.amount) term

  unfoldable pub filtered_suggestions :
      View → List ReconciliationPairSuggestion → List ReconciliationPairSuggestion
  unfolding is_match
  filtered_suggestions v suggestions =
      if is_blank v.search_term
      then suggestions
      else filter (is_match (to_lower v.search_term)) suggestions

  unfoldable pub apply_manual_filters : View → View
  apply_manual_filters v = record v {
    applied_manual_filters = record {
      search = to_lower v.manual_search_input;
      date_from = v.manual_date_from;
      date_to = v.manual_date_to;
    };
  }

  unfoldable pub passes : ManualFilters → Transaction → Bool
  passes f tx =
      if truthy f.date_from && text_lt tx.booking_date f.date_from
      then false
      else if truthy f.date_to && text_lt f.date_to tx.booking_date
      then false
      else if truthy f.search
          && (not (has_term f.search (some tx.description))
              && (not (has_term f.search tx.counterparty_name)
                  && (not (has_term f.search (some tx.reference))
                      && not (includes (amount_text tx.amount) f.search))))
      then false
      else true

  unfoldable pub manually_filtered : View → List Transaction → List Transaction
  unfolding passes
  manually_filtered v unreconciled = filter (passes v.applied_manual_filters) unreconciled

  unfoldable pub manual_debits : View → List Transaction → List Transaction
  unfolding manually_filtered
  manual_debits v unreconciled =
      filter (λ tx. lt_ℤ tx.amount (pos 0)) (manually_filtered v unreconciled)

  unfoldable pub manual_credits : View → List Transaction → List Transaction
  unfolding manually_filtered
  manual_credits v unreconciled =
      filter (λ tx. lt_ℤ (pos 0) tx.amount) (manually_filtered v unreconciled)
