-- ===== src/Transactions/Page/Url.antt =====
-- Reading back the URL that the page writes.
use cogni_cash.Base.{
  String, ◌==◌, eq_iff, ◌≡◌, refl, Bool, true, false, not, Option, none, some, List, arith,
  if◌then◌else◌, truthy, present, ◌↔◌, ◌&&◌, ◌⊎◌,
}
use cogni_cash.Base.Collections.{get, get-put}
use cogni_cash.Transactions.Page.{
  FilterState, Page, Params, set_if, url_of, initial_page, initial_hide, has_initial_filters,
  text_of, or_default,
}

pub get-set_if :
    (test : Bool) (key value : String) (params : Params) (j : String)
    → get (set_if test key value params) j
      ≡ (if key == j then (if test then some value else get params j) else get params j)
unfolding set_if
get-set_if true key value params j = get-put key value params j
get-set_if false key value params j = ground arith

-- An empty bound is no bound.
abbrev pub drop_empty : Option String → Option String
drop_empty o = if present o then o else none

-- The page that a reload shows: nothing is selected, an empty date bound is none, and reconciled
-- rows are shown although they were hidden, if a statement was chosen.
abbrev pub reloaded : Page → Page
reloaded p =
    let f = record p.applied { from = drop_empty p.applied.from; to = drop_empty p.applied.to } in
    record p {
      applied = f;
      has_applied_once = has_initial_filters f;
      hide_reconciled = p.hide_reconciled && not (truthy p.applied.statement);
      selected_hashes = List.[];
    }

pub get-nil : (j : String) → get {V = String} List.[] j ≡ none
unfolding get
get-nil j = refl

text_back : (s : String) → or_default (if truthy s then some s else none) "" ≡ s
text_back s = ground (arith, eq_iff s "")

default_back : (s d : String) → or_default (if not (s == d) then some s else none) d ≡ s
default_back s d = ground (arith, eq_iff s d)

option_back : (o : Option String) → (if present o then some (text_of o) else none) ≡ drop_empty o
option_back none = refl
option_back (some s) = refl

flag_back : (b : Bool) → (or_default (if b then some "true" else none) "" == "true") ≡ b
flag_back true = refl
flag_back false = refl

unset_flag_back :
    (b : Bool) → (or_default (if not b then some "false" else none) "true" == "true") ≡ b
unset_flag_back true = refl
unset_flag_back false = refl

set_flag_back : (b : Bool) → (or_default (if b then some "true" else none) "false" == "true") ≡ b
set_flag_back true = refl
set_flag_back false = refl

hide_back :
    (b : Bool) (f : FilterState)
    → initial_hide (if not b then some "false" else none) f ≡ (b && not (truthy f.statement))
hide_back true f = refl
hide_back false f = refl

ruleset back = (
  get-set_if, get-nil, text_back, default_back, option_back, flag_back, unset_flag_back,
  set_flag_back, hide_back,
)

-- Reading the URL that the page writes gives the page back, except that nothing is selected,
-- results are fetched at once exactly if some filter is set, an empty date bound is none, and
-- reconciled rows are no longer hidden if a statement is chosen.
pub initial_page-url_of : (p : Page) → initial_page (url_of p) ≡ reloaded p
unfolding initial_page url_of
initial_page-url_of p = simp back

-- Hiding the reconciled rows survives a reload exactly if it was off or no statement is chosen.
pub hide_survives_iff :
    (p : Page)
    → ((initial_page (url_of p)).hide_reconciled ≡ p.hide_reconciled)
      ↔ ((p.hide_reconciled ≡ false) ⊎ (p.applied.statement ≡ ""))
hide_survives_iff p = rw (initial_page-url_of p) (ground (arith, eq_iff p.applied.statement ""))
