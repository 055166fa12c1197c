-- ===== src/Transactions/Cache/Client.antt =====
-- The part of TanStack Query's client that the pages use, with what its documentation promises.
use mathlib.Core.List.{Memᴰ}
use cogni_cash.Base.{
  String, ◌==◌, eq_iff, ◌≡◌, ◌↔◌, ◌⊎◌, Bool, true, false, ◌&&◌, Option, none, some, List, [], ◌∷◌,
  if◌then◌else◌, arith, All,
}

abbrev pub QueryKey : Type 0
QueryKey = List String

-- A key filter with one part matches every key that begins with it.
abbrev pub is_under : String → QueryKey → Bool
is_under part [] = false
is_under part (k ∷ ks) = k == part

unfoldable pub key_eq : QueryKey → QueryKey → Bool
key_eq [] [] = true
key_eq (j ∷ js) (k ∷ ks) = (j == k) && key_eq js ks
key_eq _ _ = false

pub key_eq_iff : (j k : QueryKey) → (key_eq j k ≡ true) ↔ (j ≡ k)
unfolding key_eq
key_eq_iff [] [] = ground arith
key_eq_iff [] (k ∷ ks) = ground arith
key_eq_iff (j ∷ js) [] = ground arith
key_eq_iff (j ∷ js) (k ∷ ks) = ground (arith, eq_iff j k, key_eq_iff js ks)

-- Writing `undefined` changes nothing.
abbrev pub written {ℓ} : {D : Type ℓ} → Option D → Option D → Option D
written old none = old
written old (some new) = some new

pub record QueryClient (D : Type 0) : Type 1 where
  pub State : Type 0
  pub data_at : State → QueryKey → Option D
  pub get_queries_data : String → State → List (QueryKey × Option D)
  pub set_queries_data : String → (Option D → Option D) → State → State
  pub set_query_data : QueryKey → Option D → State → State
  -- `getQueriesData` lists matching keys with their data, and every matching key that has data.
  pub listed :
      (part : String) (s : State) → All (λ e. data_at s e.0 ≡ e.1) (get_queries_data part s)
  pub all_listed :
      (part : String) (s : State) (k : QueryKey)
      → is_under part k ≡ true
      → (data_at s k ≡ none) ⊎ Memᴰ (k, data_at s k) (get_queries_data part s)
  -- An updater that leaves missing data missing is applied to every matching key.
  pub data_at-set_queries_data :
      (part : String) (f : Option D → Option D) (s : State) (k : QueryKey)
      → f none ≡ none
      → data_at (set_queries_data part f s) k
        ≡ (if is_under part k then written (data_at s k) (f (data_at s k)) else data_at s k)
  pub data_at-set_query_data :
      (j : QueryKey) (d : Option D) (s : State) (k : QueryKey)
      → data_at (set_query_data j d s) k
        ≡ (if key_eq j k then written (data_at s k) d else data_at s k)
