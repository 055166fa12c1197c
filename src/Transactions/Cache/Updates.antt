-- ===== src/Transactions/Cache/Updates.antt =====
-- What the optimistic updates do to the rows of a list.
use cogni_cash.Base.{
  String, eq_iff, ◌≡◌, refl, sym, subst, ap₂, ◌⊎◌, inl, inr, true, not, Option, none, some, List,
  [], ◌∷◌, map, if◌then◌else◌, arith, All, filter, length, length-map, ltb, Bool-cases, eq_refl,
}
use cogni_cash.Base.Collections.{has, has-set_of}
use cogni_cash.Types.{Transaction}
use cogni_cash.Transactions.Page.{hashes, review_all, unreviewed_count}
use cogni_cash.Transactions.Cache.{
  Mutation, mark_reviewed, batch_mark_reviewed, categorize, batch_categorize, update_row, or_null,
}

-- The hashes that a mutation names.
abbrev pub targets : Mutation → List String
targets (mark_reviewed hash) = hash ∷ []
targets (batch_mark_reviewed hashes) = hashes
targets (categorize hash category) = hash ∷ []
targets (batch_categorize hashes category) = hashes

-- The category that a row has after a mutation that names it.
abbrev pub category_after : Mutation → Option String → Option String
category_after (mark_reviewed hash) old = old
category_after (batch_mark_reviewed hashes) old = old
category_after (categorize hash category) old = or_null category
category_after (batch_categorize hashes category) old = or_null category

-- A row that the mutation names becomes reviewed and gets the mutation's category, if it sets one;
-- every other row is left as it is.
pub update_row_lem :
    (m : Mutation) (t : Transaction)
    → update_row m t ≡ (
        if has (targets m) t.content_hash
        then record t { category_id = category_after m t.category_id; reviewed = true }
        else t)
unfolding update_row has
update_row_lem (mark_reviewed hash) t =
    ground (arith, eq_iff t.content_hash hash, eq_iff hash t.content_hash)
update_row_lem (batch_mark_reviewed hashes) t = rw (has-set_of hashes t.content_hash)
update_row_lem (categorize hash category) t =
    ground (arith, eq_iff t.content_hash hash, eq_iff hash t.content_hash)
update_row_lem (batch_categorize hashes category) t = rw (has-set_of hashes t.content_hash)

update_row_keeps :
    (m : Mutation) (t : Transaction)
    → ((update_row m t).content_hash ≡ t.content_hash)
      × ((update_row m t).amount ≡ t.amount)
      × ((update_row m t).booking_date ≡ t.booking_date)
update_row_keeps m t = rw (update_row_lem m t) (ground arith)

-- No optimistic update adds, drops or reorders rows, or changes an amount or a date.
pub map-update_row_keeps :
    (m : Mutation) (rows : List Transaction)
    → (hashes (map (update_row m) rows) ≡ hashes rows)
      × (map (λ t. t.amount) (map (update_row m) rows) ≡ map (λ t. t.amount) rows)
      × (map (λ t. t.booking_date) (map (update_row m) rows) ≡ map (λ t. t.booking_date) rows)
map-update_row_keeps m [] = (refl, refl, refl)
map-update_row_keeps m (t ∷ rows) =
    let (a, b, c) = update_row_keeps m t in
    let (x, y, z) = map-update_row_keeps m rows in (ap₂ ◌∷◌ a x, ap₂ ◌∷◌ b y, ap₂ ◌∷◌ c z)

abbrev IsCovered : List String → Transaction → Type 0
IsCovered sent t = (t.reviewed ≡ true) ⊎ (has sent t.content_hash ≡ true)

none_unreviewed :
    (sent : List String) (rows : List Transaction)
    → All (IsCovered sent) rows
    → unreviewed_count (map (update_row (batch_mark_reviewed sent)) rows) ≡ 0
unfolding unreviewed_count
none_unreviewed sent [] h = refl
none_unreviewed sent (t ∷ rows) (c, h) =
    let rest = none_unreviewed sent rows h in
    let reviewed = covered_reviewed sent t c in rw reviewed rest
  where
    covered_reviewed :
        (sent : List String) (t : Transaction)
        → IsCovered sent t
        → (update_row (batch_mark_reviewed sent) t).reviewed ≡ true
    covered_reviewed sent t c = rw (update_row_lem (batch_mark_reviewed sent) t) (ground arith)

All-IsCovered-cons :
    (hash : String) (sent : List String) (rows : List Transaction)
    → All (IsCovered sent) rows
    → All (IsCovered (hash ∷ sent)) rows
unfolding has
All-IsCovered-cons hash sent [] h = tt
All-IsCovered-cons hash sent (t ∷ rows) (c, h) = (ground arith, All-IsCovered-cons hash sent rows h)

abbrev unreviewed : List Transaction → List String
unreviewed rows = hashes (filter (λ t. not t.reviewed) rows)

covered : (rows : List Transaction) → All (IsCovered (unreviewed rows)) rows
unfolding has
covered [] = tt
covered (t ∷ rows) =
    let rest = covered rows in
    let Goal = λ (sent : List String). IsCovered sent t × All (IsCovered sent) rows in
    elim (Bool-cases t.reviewed) [
      | inl e ↦
          let q : unreviewed (t ∷ rows) ≡ unreviewed rows = ground arith in
          subst Goal (sym q) (inl e, rest)
      | inr e ↦
          let q : unreviewed (t ∷ rows) ≡ t.content_hash ∷ unreviewed rows = ground arith in
          subst Goal (sym q) (
            inr (rw (eq_refl t.content_hash)),
            All-IsCovered-cons t.content_hash (unreviewed rows) rows rest,
          )
    ]

-- What "review all" sends leaves no shown row unreviewed; it sends nothing only if none was.
pub review_all-unreviewed_count :
    (rows : List Transaction)
    → ((review_all rows ≡ none) × (unreviewed_count rows ≡ 0))
      ⊎ ((sent : List String) × (review_all rows ≡ some sent)
          × (unreviewed_count (map (update_row (batch_mark_reviewed sent)) rows) ≡ 0))
unfolding review_all
review_all-unreviewed_count rows =
    let sent = hashes (filter (λ t. not t.reviewed) rows) in
    let size =
      length-map (λ (t : Transaction). t.content_hash) (filter (λ t. not t.reviewed) rows) in
    elim (Bool-cases (ltb 0 (length sent))) [
      | inl e ↦ inr (sent, rw e, none_unreviewed sent rows (covered rows))
      | inr e ↦ inl (rw e, unfold unreviewed_count in ground arith)
    ]
