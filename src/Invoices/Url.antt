-- ===== src/Invoices/Url.antt =====
-- Reading back the URL that the page of invoices writes.
use cogni_cash.Base.{
  String, ◌==◌, eq_iff, ◌≡◌, refl, Bool, true, false, not, none, some, arith, if◌then◌else◌, truthy,
  text_or, is_text,
}
use cogni_cash.Base.Sort.{SortDir, asc, desc}
use cogni_cash.Transactions.Page.Url.{get-set_if, get-nil}
use cogni_cash.Invoices.{
  View, SortKey, issued_at, vendor, category, description, amount, known_key, key_text, dir_text,
  initial_view, initial_filters_from_url, url_of,
}

text_back : (s : String) → text_or (if truthy s then some s else none) "" ≡ s
text_back s = ground (arith, eq_iff s "")

-- A choice that is "all" unless another one is written.
abbrev chosen : String → String
chosen s = if truthy s then s else "all"

choice_back : (s : String) → text_or (if not (s == "all") then some s else none) "all" ≡ chosen s
choice_back s = ground (arith, eq_iff s "all", eq_iff s "")

key_back :
    (k : SortKey)
    → known_key (text_or (if not (key_text k == "issued_at") then some (key_text k) else none) "")
      ≡ k
key_back issued_at = refl
key_back vendor = refl
key_back category = refl
key_back description = refl
key_back amount = refl

dir_back :
    (d : SortDir)
    → (if is_text (if not (dir_text d == "desc") then some (dir_text d) else none) "asc"
        then asc
        else desc)
      ≡ d
dir_back asc = refl
dir_back desc = refl

visuals_back : (b : Bool) → not (is_text (if not b then some "false" else none) "false") ≡ b
visuals_back true = refl
visuals_back false = refl

ruleset back = (get-set_if, get-nil, text_back, choice_back, key_back, dir_back, visuals_back)

-- The view with an empty choice read as "all".
abbrev pub with_choices : View → View
with_choices v =
    let f = v.applied in
    record v { applied = record f { category = chosen f.category; source = chosen f.source } }

-- Reading the URL that the page of invoices writes gives its filters, order and switch back, where
-- an empty choice of category or source is read as "all".
pub initial_view-url_of : (v : View) → initial_view (url_of v) ≡ with_choices v
unfolding initial_view initial_filters_from_url url_of
initial_view-url_of v = simp back
