-- ===== src/Transactions/Page.antt =====
-- The state of the transactions page and its handlers: filters, sorting, selection and the query
-- part of the URL (frontend/src/pages/TransactionsPage.tsx and the filter type of
-- frontend/src/components/transactions/TransactionFilters.tsx).
pub mod Url
pub mod Selection
use cogni_cash.Base.{
  ℕ, String, ◌==◌, Bool, true, false, not, ◌&&◌, ◌||◌, Option, none, some, List, [], ◌∷◌, map,
  length, if◌then◌else◌, truthy, present, leb, ltb, nat_eq, filter, find, any,
}
use cogni_cash.Base.Collections.{JsSet, has, set_of, toggle, get, put}
use cogni_cash.Types.{Transaction, Subscription}

-- The type, the sort key and the direction are texts: the page takes them from the URL by a cast.
pub record FilterState : Type 0 where
  pub search : String
  pub type : String
  pub statement : String
  pub category : String
  pub from : Option String
  pub to : Option String
  pub amount_min : String
  pub amount_max : String
  pub include_shared : Bool

abbrev pub empty_filters : FilterState
empty_filters = record {
  search = "";
  type = "all";
  statement = "";
  category = "all";
  from = none;
  to = none;
  amount_min = "";
  amount_max = "";
  include_shared = false;
}

pub record Page : Type 0 where
  pub applied : FilterState
  pub has_applied_once : Bool
  pub hide_reconciled : Bool
  pub selected_hashes : JsSet
  pub sort_key : String
  pub sort_dir : String
  pub show_visuals : Bool
  pub include_predictions : Bool

-- `URLSearchParams`, as far as the page uses it: `get`, and `set` on a fresh object.
abbrev pub Params : Type 0
Params = List (String × String)

abbrev or_default : Option String → String → String
or_default none d = d
or_default (some s) d = s

-- `searchParams.get(key) ?? defaultValue`
unfoldable pub get_param : Params → String → String → String
get_param params key d = or_default (get params key) d

unfoldable pub initial_filters : Params → FilterState
unfolding get_param
initial_filters params = record {
  search = get_param params "search" "";
  type = get_param params "type" "all";
  statement = get_param params "statement" "";
  category = get_param params "category" "all";
  from = get params "from";
  to = get params "to";
  amount_min = get_param params "amountMin" "";
  amount_max = get_param params "amountMax" "";
  include_shared = get_param params "include_shared" "" == "true";
}

-- Whether some filter of the URL is set, so that the page fetches at once.
unfoldable pub has_initial_filters : FilterState → Bool
has_initial_filters f =
    truthy f.search
    || (not (f.type == "all") && truthy f.type)
    || truthy f.statement
    || (not (f.category == "all") && truthy f.category)
    || present f.from
    || present f.to
    || truthy f.amount_min
    || truthy f.amount_max
    || f.include_shared

-- The initial value of `hideReconciled`.
abbrev initial_hide : Option String → FilterState → Bool
initial_hide (some hr) f = hr == "true"
initial_hide none f = not (truthy f.statement)

-- The state that the page starts with under a URL.
unfoldable pub initial_page : Params → Page
unfolding initial_filters get_param has_initial_filters
initial_page params =
    let f = initial_filters params in
    record {
      applied = f;
      has_applied_once = has_initial_filters f;
      hide_reconciled = initial_hide (get params "hide_reconciled") f;
      selected_hashes = [];
      sort_key = get_param params "sortKey" "booking_date";
      sort_dir = get_param params "sortDir" "desc";
      show_visuals = get_param params "visuals" "true" == "true";
      include_predictions = get_param params "predictions" "false" == "true";
    }

-- `if (test) next.set(key, value)`
unfoldable pub set_if : Bool → String → String → Params → Params
unfolding put
set_if test key value next = if test then put key value next else next

abbrev pub text_of : Option String → String
text_of none = ""
text_of (some s) = s

-- The effect that writes the state into the URL.
unfoldable pub url_of : Page → Params
unfolding set_if
url_of p =
    let f = p.applied in
    let a = set_if (truthy f.search) "search" f.search [] in
    let b = set_if (not (f.type == "all")) "type" f.type a in
    let c = set_if (truthy f.statement) "statement" f.statement b in
    let d = set_if (not (f.category == "all")) "category" f.category c in
    let e = set_if (present f.from) "from" (text_of f.from) d in
    let g = set_if (present f.to) "to" (text_of f.to) e in
    let h = set_if (truthy f.amount_min) "amountMin" f.amount_min g in
    let i = set_if (truthy f.amount_max) "amountMax" f.amount_max h in
    let j = set_if f.include_shared "include_shared" "true" i in
    let k = set_if (not p.hide_reconciled) "hide_reconciled" "false" j in
    let l = set_if (not (p.sort_key == "booking_date")) "sortKey" p.sort_key k in
    let m = set_if (not (p.sort_dir == "desc")) "sortDir" p.sort_dir l in
    let n = set_if (not p.show_visuals) "visuals" "false" m in
    set_if p.include_predictions "predictions" "true" n

unfoldable pub handle_apply : FilterState → Page → Page
handle_apply new_filters p = record p {
  applied = new_filters;
  has_applied_once = true;
  selected_hashes = [];
}

unfoldable pub handle_clear : Page → Page
handle_clear p = record p {
  applied = empty_filters;
  has_applied_once = false;
  selected_hashes = [];
}

unfoldable pub toggle_sort : String → Page → Page
toggle_sort key p =
    if p.sort_key == key
    then record p { sort_dir = if p.sort_dir == "asc" then "desc" else "asc" }
    else record p { sort_key = key; sort_dir = "desc" }

unfoldable pub toggle_select : String → Page → Page
unfolding toggle
toggle_select hash p = record p { selected_hashes = toggle hash p.selected_hashes }

abbrev pub hashes : List Transaction → List String
hashes = map (λ t. t.content_hash)

-- `filtered` is what the page shows.
unfoldable pub toggle_select_all : List Transaction → Page → Page
unfolding set_of
toggle_select_all filtered p =
    let every = nat_eq (length p.selected_hashes) (length filtered) && ltb 0 (length filtered) in
    record p { selected_hashes = if every then [] else set_of (hashes filtered) }

-- What `handleReviewAll` sends: the rows that are not reviewed; nothing is sent if there is none.
unfoldable pub review_all : List Transaction → Option (List String)
review_all filtered =
    let unreviewed = hashes (filter (λ t. not t.reviewed) filtered) in
    if ltb 0 (length unreviewed) then some unreviewed else none

unfoldable pub unreviewed_count : List Transaction → ℕ
unreviewed_count filtered = length (filter (λ t. not t.reviewed) filtered)

-- The transactions and the hashes of the dialog that links to a subscription.
unfoldable pub link_transactions : List Transaction → Transaction → Page → List Transaction
unfolding has
link_transactions all_txns clicked p =
    if ltb 1 (length p.selected_hashes)
    then filter (λ t. has p.selected_hashes t.content_hash) all_txns
    else clicked ∷ []

unfoldable pub link_hashes : Transaction → Page → List String
link_hashes clicked p =
    if ltb 1 (length p.selected_hashes) then p.selected_hashes else clicked.content_hash ∷ []
