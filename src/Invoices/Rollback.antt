-- ===== src/Invoices/Rollback.antt =====
-- What a failed update of invoices leaves in the cache.
use cogni_cash.Base.{
  String, ◌≡◌, refl, Option, none, some, List, if◌then◌else◌, Bool-cases, inl, inr, ◌∙◌, sym, ap,
}
use cogni_cash.Types.{Invoice}
use cogni_cash.Transactions.Cache.Client.{QueryClient, QueryKey, key_eq, key_eq_iff, written}
use cogni_cash.Invoices.Updates.{
  InvoiceMutation, invoices_key, write_if, updated_rows, on_mutate, on_error,
}

module _ (client : QueryClient (List Invoice)) where
  open client use {State, data_at, set_query_data, data_at-set_query_data}

  -- Writing a list or, where there is none, nothing.
  data_at-write_if :
      (j : QueryKey) (d : Option (List Invoice)) (s : State) (k : QueryKey)
      → data_at (write_if client j d s) k
        ≡ (if key_eq j k then written (data_at s k) d else data_at s k)
  data_at-write_if j none s k = elim (Bool-cases (key_eq j k)) [
    | inl e ↦ rw e refl
    | inr e ↦ rw e refl
  ]
  data_at-write_if j (some rows) s k = data_at-set_query_data j (some rows) s k

  written_back :
      (m : InvoiceMutation) (d : Option (List Invoice))
      → written (written d (updated_rows client m d)) d ≡ d
  written_back m none = refl
  written_back m (some rows) = refl

  written-some :
      (old d : Option (List Invoice)) (rows : List Invoice)
      → d ≡ some rows
      → written old d ≡ some rows
  written-some old none rows e = cc
  written-some old (some new) rows e = e

  module _ (source : String) (m : InvoiceMutation) (s : State) where
    -- What is cached after the optimistic update.
    data_at_mutated :
        (k : QueryKey)
        → data_at (on_mutate client source m s).1 k ≡ (
            if key_eq (invoices_key source) k
            then written (data_at s k) (updated_rows client m (data_at s (invoices_key source)))
            else data_at s k)
    unfolding on_mutate
    data_at_mutated k =
        data_at-write_if (invoices_key source)
          (updated_rows client m (data_at s (invoices_key source))) s k

    -- While the same source stays applied, the rollback of a failed update of invoices gives every
    -- cached list back, whatever it held.
    pub on_error_restores :
        (k : QueryKey)
        → data_at
            (on_error client source (on_mutate client source m s).0 (on_mutate client source m s).1)
            k
          ≡ data_at s k
    unfolding on_error on_mutate
    on_error_restores k =
        let key = invoices_key source in
        let previous = data_at s key in
        data_at-write_if key previous (on_mutate client source m s).1 k
        ∙ elim (Bool-cases (key_eq key k)) [
          | inl e ↦
              let there : data_at s k ≡ previous = ap (data_at s) (sym ((key_eq_iff key k).0 e)) in
              rw (e, data_at_mutated k, e, there) (written_back m previous)
          | inr e ↦ rw (e, data_at_mutated k, e) refl
        ]

    -- If another source is applied when the update of a cached list fails, the list of that other
    -- source becomes the old list of the first one.
    pub on_error_elsewhere :
        (later : String) (rows : List Invoice)
        → data_at s (invoices_key source) ≡ some rows
        → data_at
            (on_error client later (on_mutate client source m s).0 (on_mutate client source m s).1)
            (invoices_key later)
          ≡ some rows
    unfolding on_error on_mutate
    on_error_elsewhere later rows h =
        let key = invoices_key later in
        let now = (on_mutate client source m s).1 in
        data_at-write_if key (data_at s (invoices_key source)) now key
        ∙ rw ((key_eq_iff key key).1 refl)
            (written-some (data_at now key) (data_at s (invoices_key source)) rows h)
