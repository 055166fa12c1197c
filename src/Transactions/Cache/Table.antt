-- ===== src/Transactions/Cache/Table.antt =====
-- A query client that keeps its data in a table, newest entry first: it meets what the pages rely on.
use mathlib.Core.List.{Memᴰ}
use cogni_cash.Base.{
  String, ◌≡◌, refl, ◌⊎◌, inl, inr, Bool, true, false, Option, none, some, List, [], ◌∷◌,
  if◌then◌else◌, All, Bool-cases, sym, ap, subst,
}
use cogni_cash.Transactions.Cache.Client.{
  QueryClient, QueryKey, is_under, key_eq, key_eq_iff, written,
}

abbrev pub Table : Type 0 → Type 0
Table D = List (QueryKey × D)

module _ {D : Type 0} where
  abbrev pub find_data : Table D → QueryKey → Option D
  find_data [] k = none
  find_data ((j, d) ∷ s) k = if key_eq j k then some d else find_data s k

  abbrev or_old : D → Option D → D
  or_old old none = old
  or_old old (some new) = new

  abbrev pub list_data : String → Table D → Table D → List (QueryKey × Option D)
  list_data part s [] = []
  list_data part s ((j, d) ∷ l) =
      let rest = list_data part s l in if is_under part j then (j, find_data s j) ∷ rest else rest

  abbrev pub update_all : String → (Option D → Option D) → Table D → Table D
  update_all part f [] = []
  update_all part f ((j, d) ∷ s) =
      (j, if is_under part j then or_old d (f (some d)) else d) ∷ update_all part f s

  abbrev pub add_data : QueryKey → Option D → Table D → Table D
  add_data j none s = s
  add_data j (some d) s = (j, d) ∷ s

  pub list_data-listed :
      (part : String) (s l : Table D) → All (λ e. find_data s e.0 ≡ e.1) (list_data part s l)
  list_data-listed part s [] = tt
  list_data-listed part s ((j, d) ∷ l) = elim (Bool-cases (is_under part j)) [
    | inl e ↦ rw e (refl, list_data-listed part s l)
    | inr e ↦ rw e (list_data-listed part s l)
  ]

  pub mem-list_data :
      (part : String) (s l : Table D) (k : QueryKey)
      → is_under part k ≡ true
      → (find_data l k ≡ none) ⊎ Memᴰ (k, find_data s k) (list_data part s l)
  mem-list_data part s [] k under = inl refl
  mem-list_data part s ((j, d) ∷ l) k under = elim (Bool-cases (key_eq j k)) [
    | inl e ↦
        let same = (key_eq_iff j k).0 e in
        let under_j : is_under part j ≡ true =
          subst (λ i. is_under part i ≡ true) (sym same) under in
        rw (e, under_j) (inr (Memᴰ.head (ap (λ i. (i, find_data s i)) (sym same))))
    | inr e ↦ elim (mem-list_data part s l k under) [
      | inl missing ↦ rw e (inl missing)
      | inr member ↦ elim (Bool-cases (is_under part j)) [
        | inl u ↦ rw (e, u) (inr (Memᴰ.tail member))
        | inr u ↦ rw (e, u) (inr member)
      ]
    ]
  ]

  pub find_data-update_all :
      (part : String) (f : Option D → Option D) (s : Table D) (k : QueryKey)
      → f none ≡ none
      → find_data (update_all part f s) k
        ≡ (if is_under part k then written (find_data s k) (f (find_data s k)) else find_data s k)
  find_data-update_all part f [] k h = elim (Bool-cases (is_under part k)) [
    | inl e ↦ rw (e, h) refl
    | inr e ↦ rw e refl
  ]
  find_data-update_all part f ((j, d) ∷ s) k h = elim (Bool-cases (key_eq j k)) [
    | inl e ↦
        rw ((key_eq_iff j k).0 e, (key_eq_iff k k).1 refl) (found (is_under part k) d (f (some d)))
    | inr e ↦ rw e (find_data-update_all part f s k h)
  ]
    where
      found :
          (b : Bool) (old : D) (new : Option D)
          → some (if b then or_old old new else old)
            ≡ (if b then written (some old) new else some old)
      found false old new = refl
      found true old none = refl
      found true old (some new) = refl

  pub find_data-add_data :
      (j : QueryKey) (d : Option D) (s : Table D) (k : QueryKey)
      → find_data (add_data j d s) k
        ≡ (if key_eq j k then written (find_data s k) d else find_data s k)
  find_data-add_data j none s k = elim (Bool-cases (key_eq j k)) [
    | inl e ↦ rw e refl
    | inr e ↦ rw e refl
  ]
  find_data-add_data j (some d) s k = refl

abbrev pub table_client : (D : Type 0) → QueryClient D
table_client D = record {
  State = Table D;
  data_at = find_data;
  get_queries_data = λ part s. list_data part s s;
  set_queries_data = update_all;
  set_query_data = add_data;
  listed = λ part s. list_data-listed part s s;
  all_listed = λ part s k under. mem-list_data part s s k under;
  data_at-set_queries_data = find_data-update_all;
  data_at-set_query_data = find_data-add_data;
}
