-- ===== src/Categories.antt =====
-- frontend/src/pages/CategoriesPage.tsx: the list of categories, the row that edits one, and the form
-- that creates one.
pub mod Listing
use Prim.Native.Char.{Char, code}
use Prim.Native.String.{String, [], ◌∷◌}
use cogni_cash.Base.{
  ◌==◌, Bool, true, false, not, ◌&&◌, ◌||◌, Option, none, some, if◌then◌else◌, truthy, text_or,
  present, trim, is_blank, is_digit, filter, nat_eq, List,
}
use cogni_cash.Base.Int.{ℤ, pos, negsuc}
use cogni_cash.Base.Sort.{sort}
use cogni_cash.Base.Platform.{Platform}
use cogni_cash.Types.{Category}
use cogni_cash.Api.Services.Category.{CategoryCall, create, update, delete_category, restore}

-- The rest of `/^(\d+[my]|all)$/` after a digit.
unfoldable pub digits_then_unit : String → Bool
unfolding is_digit
digits_then_unit [] = false
digits_then_unit (c ∷ s) =
    let rest = digits_then_unit s in
    if is_digit c then rest else (nat_eq (code c) b'm' || nat_eq (code c) b'y') && (s == "")

-- `/^(\d+[my]|all)$/.test(strategy)`
unfoldable pub is_strategy : String → Bool
unfolding digits_then_unit is_digit
is_strategy [] = false
is_strategy (c ∷ s) = (is_digit c && digits_then_unit s) || ((c ∷ s) == "all")

-- After half a second without typing the average of a well-formed strategy is shown.
unfoldable pub debounced : String → String → String
unfolding is_strategy
debounced strategy shown = if is_strategy strategy then strategy else shown

-- Whether the average is fetched: for a stored category.
unfoldable pub average_enabled : Option String → String → Bool
unfolding is_strategy
average_enabled category_id debounced_strategy =
    present category_id && is_strategy debounced_strategy

pub record RowState : Type 0 where
  pub is_editing : Bool
  pub edit_name : String
  pub edit_color : String
  pub edit_is_variable : Bool
  pub edit_strategy : String

abbrev pub strategy_of : Category → String
strategy_of cat = text_or (some cat.forecast_strategy) "3y"

unfoldable pub initial_row : Category → RowState
initial_row cat = record {
  is_editing = false;
  edit_name = cat.name;
  edit_color = cat.color;
  edit_is_variable = cat.is_variable_spending;
  edit_strategy = strategy_of cat;
}

unfoldable pub start_row : RowState → RowState
start_row s = record s { is_editing = true }

unfoldable pub save_row : Category → RowState → CategoryCall × RowState
save_row cat s = (
  update cat.id s.edit_name s.edit_color (some s.edit_is_variable) (some s.edit_strategy),
  record s { is_editing = false },
)

unfoldable pub cancel_row : Category → RowState → RowState
unfolding initial_row
cancel_row cat s = initial_row cat

pub record NewForm : Type 0 where
  pub is_creating : Bool
  pub new_name : String
  pub new_color : String
  pub new_is_variable : Bool
  pub new_strategy : String

-- The first colour of the palette.
abbrev pub first_color : String
first_color = "#6366f1"

abbrev pub empty_form : NewForm
empty_form = record {
  is_creating = false;
  new_name = "";
  new_color = first_color;
  new_is_variable = false;
  new_strategy = "3y";
}

unfoldable pub handle_create : NewForm → Option CategoryCall × NewForm
unfolding is_blank trim
handle_create s = if is_blank s.new_name then (none, s) else (
  some (create (trim s.new_name) s.new_color (some s.new_is_variable) (some s.new_strategy)),
  empty_form,
)

abbrev pub is_deleted : Category → Bool
is_deleted c = present c.deleted_at

module _ (platform : Platform) where
  open platform use {locale_compare}

  -- Deleted categories stand below the others.
  abbrev pub deleted_last : Bool → Bool → ℤ → ℤ
  deleted_last true false by_name = pos 1
  deleted_last false true by_name = negsuc 0
  deleted_last true true by_name = by_name
  deleted_last false false by_name = by_name

  abbrev pub category_order : Category → Category → ℤ
  category_order a b = deleted_last (is_deleted a) (is_deleted b) (locale_compare a.name b.name)

  unfoldable pub sorted : Bool → List Category → List Category
  unfolding sort
  sorted show_deleted categories =
      sort category_order (filter (λ c. show_deleted || not (is_deleted c)) categories)
