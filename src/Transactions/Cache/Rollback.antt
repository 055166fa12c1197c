-- ===== src/Transactions/Cache/Rollback.antt =====
-- What an optimistic update does to the cache, and that a failed mutation undoes it.
use mathlib.Core.List.{Memᴰ}
use cogni_cash.Base.{
  ◌≡◌, refl, sym, ap, ◌∙◌, ◌⊎◌, inl, inr, Bool, true, false, Option, none, some, List, [], ◌∷◌,
  if◌then◌else◌, arith, All, Bool-cases, Option-cases,
}
use cogni_cash.Types.{Transaction}
use cogni_cash.Transactions.Cache.Client.{
  QueryClient, QueryKey, is_under, key_eq, key_eq_iff, written,
}
use cogni_cash.Transactions.Cache.{Mutation, update_data, on_mutate, on_error}

written_self : (d : Option (List Transaction)) → written d d ≡ d
written_self none = refl
written_self (some rows) = refl

written-some :
    (old d : Option (List Transaction)) (rows : List Transaction)
    → d ≡ some rows
    → written old d ≡ some rows
written-some old none rows e = cc
written-some old (some new) rows e = e

module _ (client : QueryClient (List Transaction)) where
  open client use {
    State, data_at, get_queries_data, set_queries_data, set_query_data, listed, all_listed,
    data_at-set_queries_data, data_at-set_query_data,
  }

  -- Every cached list of transactions is updated row by row; what has no data yet and all other
  -- cached data stay as they are.
  pub data_at-on_mutate :
      (m : Mutation) (s : State) (k : QueryKey)
      → data_at (on_mutate client m s).1 k
        ≡ (if is_under "transactions" k then update_data m (data_at s k) else data_at s k)
  unfolding on_mutate update_data
  data_at-on_mutate m s k =
      data_at-set_queries_data "transactions" (update_data m) s k refl
      ∙ same (data_at s k) (is_under "transactions" k)
    where
      same :
          (d : Option (List Transaction)) (b : Bool)
          → (if b then written d (update_data m d) else d) ≡ (if b then update_data m d else d)
      same d false = refl
      same none true = refl
      same (some rows) true = refl

  module _ (s : State) (k : QueryKey) where
    -- A write of the context leaves a key alone whose data are the old ones.
    on_error_keeps :
        (context : List (QueryKey × Option (List Transaction))) (now : State)
        → All (λ e. data_at s e.0 ≡ e.1) context
        → data_at now k ≡ data_at s k
        → data_at (on_error client context now) k ≡ data_at s k
    unfolding on_error
    on_error_keeps [] now h e = e
    on_error_keeps ((j, d) ∷ context) now (p, h) e =
        on_error_keeps context (set_query_data j d now) h
          (data_at-set_query_data j d now k ∙ kept (Bool-cases (key_eq j k)))
      where
        kept :
            (key_eq j k ≡ true) ⊎ (key_eq j k ≡ false)
            → (if key_eq j k then written (data_at now k) d else data_at now k) ≡ data_at s k
        kept (inl same) =
            let there : d ≡ data_at s k = sym p ∙ ap (data_at s) ((key_eq_iff j k).0 same) in
            rw (same, e, there) (written_self (data_at s k))
        kept (inr other) = rw other e

    on_error_restores :
        (context : List (QueryKey × Option (List Transaction))) (now : State)
        → All (λ e. data_at s e.0 ≡ e.1) context
        → (rows : List Transaction) → data_at s k ≡ some rows
        → Memᴰ (k, data_at s k) context
        → data_at (on_error client context now) k ≡ data_at s k
    unfolding on_error
    on_error_restores [] now h rows e m = elim m [ ]
    on_error_restores ((j, d) ∷ context) now (p, h) rows e (Memᴰ.head q) =
        let same : k ≡ j = ap (λ x. x.0) q in
        let there : d ≡ some rows = sym p ∙ (ap (data_at s) (sym same) ∙ e) in
        on_error_keeps context (set_query_data j d now) h (
          data_at-set_query_data j d now k
          ∙ (rw ((key_eq_iff j k).1 (sym same))
              (written-some (data_at now k) d rows there ∙ sym e)))
    on_error_restores ((j, d) ∷ context) now (p, h) rows e (Memᴰ.tail m) =
        on_error_restores context (set_query_data j d now) h rows e m

  module _ (m : Mutation) (s : State) where
    honest : All (λ e. data_at s e.0 ≡ e.1) (on_mutate client m s).0
    unfolding on_mutate
    honest = listed "transactions" s

    restored :
        (k : QueryKey) (rows : List Transaction)
        → data_at s k ≡ some rows
        → Memᴰ (k, data_at s k) (get_queries_data "transactions" s)
        → data_at (on_error client (on_mutate client m s).0 (on_mutate client m s).1) k
          ≡ data_at s k
    unfolding on_mutate
    restored k rows e member =
        on_error_restores s k (get_queries_data "transactions" s)
          (set_queries_data "transactions" (update_data m) s) (listed "transactions" s) rows e
          member

    untouched :
        (k : QueryKey)
        → data_at (on_mutate client m s).1 k ≡ data_at s k
        → data_at (on_error client (on_mutate client m s).0 (on_mutate client m s).1) k
          ≡ data_at s k
    untouched k = on_error_keeps s k (on_mutate client m s).0 (on_mutate client m s).1 honest

    no_data : (k : QueryKey) → data_at s k ≡ none → data_at (on_mutate client m s).1 k ≡ data_at s k
    unfolding update_data
    no_data k e = data_at-on_mutate m s k ∙ (ground arith)

    -- After a failed mutation the rollback gives every cached list back, whatever it held.
    pub on_error-on_mutate :
        (k : QueryKey)
        → data_at (on_error client (on_mutate client m s).0 (on_mutate client m s).1) k
          ≡ data_at s k
    on_error-on_mutate k = elim (Bool-cases (is_under "transactions" k)) [
      | inl under ↦ elim (Option-cases (data_at s k)) [
        | inl e ↦ untouched k (no_data k e)
        | inr (rows, e) ↦ elim (all_listed "transactions" s k under) [
          | inl missing ↦ untouched k (no_data k missing)
          | inr member ↦ restored k rows e member
        ]
      ]
      | inr other ↦ untouched k (data_at-on_mutate m s k ∙ (rw other))
    ]
