-- ===== src/Base/Collections.antt =====
-- `Set<string>` and `Record<string, V>`: lists in insertion order.
use Prim.Native.String.{String}
use mathlib.Core.Path.{◌≡◌, refl, sym, ap}
use mathlib.Core.Logic.{inl, inr}
use mathlib.Core.Bool.{Bool, true, false, not, ◌||◌}
use mathlib.Core.Option.{Option, none, some}
use mathlib.Core.List.{List, [], ◌∷◌, ◌++◌, map, append-nil, append_assoc}
use native.Mathlib.Omega.{arith}
use text.Mathlib.Text.{◌==◌}
use text.Mathlib.TextEquality.{eq_iff}
use cogni_cash.Base.Tests.{if◌then◌else◌, Bool-cases}
use cogni_cash.Base.Lists.{filter}

abbrev pub JsSet : Type 0
JsSet = List String

-- `s.has(x)`
unfoldable pub has : JsSet → String → Bool
has [] x = false
has (y ∷ s) x = if y == x then true else has s x

-- `s.add(x)`
unfoldable pub add : String → JsSet → JsSet
unfolding has
add x s = if has s x then s else s ++ (x ∷ [])

-- `s.delete(x)`
unfoldable pub delete : String → JsSet → JsSet
delete x [] = []
delete x (y ∷ s) = if y == x then delete x s else y ∷ delete x s

add_all : List String → JsSet → JsSet
add_all [] s = s
add_all (x ∷ xs) s = add_all xs (add x s)

-- `new Set(xs)`
unfoldable pub set_of : List String → JsSet
unfolding add_all add
set_of xs = add_all xs []

-- No element twice.
abbrev pub Distinct : JsSet → Type 0
Distinct [] = Unit
Distinct (x ∷ s) = (has s x ≡ false) × Distinct s

pub has-append : (s t : JsSet) (x : String) → has (s ++ t) x ≡ (has s x || has t x)
unfolding has
has-append [] t x = refl
has-append (y ∷ s) t x = ground (arith, has-append s t x)

pub has-add :
    (x : String) (s : JsSet) (y : String) → has (add x s) y ≡ (if x == y then true else has s y)
unfolding add
has-add x s y = elim (Bool-cases (has s x)) [
  | inl e ↦
      rw e (elim (Bool-cases (x == y)) [ inl f ↦ rw f (rw ((eq_iff x y).0 f) at e) | inr f ↦ rw f ])
  | inr e ↦ rw (e, has-append s (x ∷ []) y) (unfold has in ground arith)
]

pub has-delete :
    (x : String) (s : JsSet) (y : String) → has (delete x s) y ≡ (if x == y then false else has s y)
unfolding has delete
has-delete x [] y = ground arith
has-delete x (z ∷ s) y = ground (arith, has-delete x s y, eq_iff z x, eq_iff x y, eq_iff z y)

has-add_all :
    (xs : List String) (s : JsSet) (y : String) → has (add_all xs s) y ≡ (has xs y || has s y)
unfolding add_all has
has-add_all [] s y = refl
has-add_all (x ∷ xs) s y = ground (arith, has-add_all xs (add x s) y, has-add x s y)

-- A set made from a list has exactly the list's members.
pub has-set_of : (xs : List String) (y : String) → has (set_of xs) y ≡ has xs y
unfolding set_of has
has-set_of xs y = ground (arith, has-add_all xs [] y)

pub Distinct-append :
    (s : JsSet) (x : String) → Distinct s → has s x ≡ false → Distinct (s ++ (x ∷ []))
unfolding has
Distinct-append [] x d h = (refl, tt)
Distinct-append (y ∷ s) x (n, d) h = (
  rw (has-append s (x ∷ []) y) (ground (arith, eq_iff x y, eq_iff y x)),
  Distinct-append s x d (ground arith),
)

pub add-Distinct : (x : String) (s : JsSet) → Distinct s → Distinct (add x s)
unfolding add
add-Distinct x s d = elim (Bool-cases (has s x)) [
  | inl e ↦ rw e d
  | inr e ↦ rw e (Distinct-append s x d e)
]

pub delete-Distinct : (x : String) (s : JsSet) → Distinct s → Distinct (delete x s)
unfolding delete
delete-Distinct x [] d = tt
delete-Distinct x (y ∷ s) (n, d) = elim (Bool-cases (y == x)) [
  | inl e ↦ rw e (delete-Distinct x s d)
  | inr e ↦ rw e (rw (has-delete x s y) (ground arith), delete-Distinct x s d)
]

add_all-Distinct : (xs : List String) (s : JsSet) → Distinct s → Distinct (add_all xs s)
unfolding add_all
add_all-Distinct [] s d = d
add_all-Distinct (x ∷ xs) s d = add_all-Distinct xs (add x s) (add-Distinct x s d)

pub set_of-Distinct : (xs : List String) → Distinct (set_of xs)
unfolding set_of
set_of-Distinct xs = add_all-Distinct xs [] tt

fresh_of_Distinct :
    (s : JsSet) (x : String) (xs : List String) → Distinct (s ++ x ∷ xs) → has s x ≡ false
unfolding has
fresh_of_Distinct [] x xs d = refl
fresh_of_Distinct (y ∷ s) x xs (n, d) =
    let later = fresh_of_Distinct s x xs d in
    let apart = has-append s (x ∷ xs) y in ground (arith, eq_iff x y, eq_iff y x)

add_all-eq-append : (xs s : List String) → Distinct (s ++ xs) → add_all xs s ≡ s ++ xs
unfolding add_all add
add_all-eq-append [] s d = sym (append-nil s)
add_all-eq-append (x ∷ xs) s d =
    let fresh : has s x ≡ false = fresh_of_Distinct s x xs d in
    rw (fresh, add_all-eq-append xs (s ++ (x ∷ [])) (rw (append_assoc s (x ∷ []) xs) d))
      (append_assoc s (x ∷ []) xs)

-- A list without repetitions is its own set.
pub set_of-eq_of_Distinct : (xs : List String) → Distinct xs → set_of xs ≡ xs
unfolding set_of
set_of-eq_of_Distinct xs d = add_all-eq-append xs [] d

-- Membership flips, and nothing else changes.
unfoldable pub toggle : String → JsSet → JsSet
toggle x s = if has s x then delete x s else add x s

pub has-toggle :
    (x : String) (s : JsSet) (y : String)
    → has (toggle x s) y ≡ (if x == y then not (has s y) else has s y)
unfolding toggle
has-toggle x s y = elim (Bool-cases (has s x)) [
  | inl e ↦ rw (e, has-delete x s y) (ground (arith, eq_iff x y))
  | inr e ↦ rw (e, has-add x s y) (ground (arith, eq_iff x y))
]

pub toggle-Distinct : (x : String) (s : JsSet) → Distinct s → Distinct (toggle x s)
unfolding toggle
toggle-Distinct x s d = ground (arith, add-Distinct x s d, delete-Distinct x s d)

module _ {ℓ} {V : Type ℓ} where
  -- `d[k]`
  unfoldable pub get : List (String × V) → String → Option V
  get [] k = none
  get ((j, v) ∷ d) k = if j == k then some v else get d k

  -- `d[k] = v`: in place, or at the end.
  unfoldable pub put : String → V → List (String × V) → List (String × V)
  put k v [] = (k, v) ∷ []
  put k v ((j, w) ∷ d) = if j == k then (j, v) ∷ d else (j, w) ∷ put k v d

  -- `delete d[k]`
  unfoldable pub remove : String → List (String × V) → List (String × V)
  remove k [] = []
  remove k ((j, w) ∷ d) = if j == k then remove k d else (j, w) ∷ remove k d

  pub get-put :
      (k : String) (v : V) (d : List (String × V)) (j : String)
      → get (put k v d) j ≡ (if k == j then some v else get d j)
  unfolding get put
  get-put k v [] j = refl
  get-put k v ((i, w) ∷ d) j = ground (arith, get-put k v d j, eq_iff k j, eq_iff i k, eq_iff i j)

  -- The keys.
  abbrev pub names : List (String × V) → JsSet
  names = map (λ (e : String × V). e.0)

  has-put :
      (k : String) (v : V) (d : List (String × V)) (j : String)
      → has (names (put k v d)) j ≡ (if k == j then true else has (names d) j)
  unfolding put has
  has-put k v [] j = refl
  has-put k v ((i, w) ∷ d) j = ground (arith, has-put k v d j, eq_iff k j, eq_iff i k, eq_iff i j)

  pub put-Distinct :
      (k : String) (v : V) (d : List (String × V))
      → Distinct (names d)
      → Distinct (names (put k v d))
  unfolding put has
  put-Distinct k v [] d = (refl, tt)
  put-Distinct k v ((i, w) ∷ r) (n, d) = elim (Bool-cases (i == k)) [
    | inl e ↦ rw e (n, d)
    | inr e ↦
        rw e (rw (has-put k v r i) (ground (arith, eq_iff k i, eq_iff i k)), put-Distinct k v r d)
  ]

  pub get-absent : (d : List (String × V)) (k : String) → has (names d) k ≡ false → get d k ≡ none
  unfolding get has
  get-absent [] k h = refl
  get-absent ((j, v) ∷ d) k h = ground (arith, get-absent d k)

  -- The entries of a key, of which there is one at most.
  abbrev pub entry : String → Option V → List (String × V)
  entry k none = []
  entry k (some v) = (k, v) ∷ []

  pub filter-names :
      (d : List (String × V)) (k : String)
      → Distinct (names d)
      → filter (λ (e : String × V). e.0 == k) d ≡ entry k (get d k)
  unfolding get
  filter-names [] k d = refl
  filter-names ((j, v) ∷ r) k (n, d) = elim (Bool-cases (j == k)) [
    | inl e ↦
        rw (e, filter-names r k d, get-absent r k (rw (sym ((eq_iff j k).0 e)) n))
          (ap (λ i. (i, v) ∷ []) ((eq_iff j k).0 e))
    | inr e ↦ rw e (filter-names r k d)
  ]

  pub get-remove :
      (k : String) (d : List (String × V)) (j : String)
      → get (remove k d) j ≡ (if k == j then none else get d j)
  unfolding get remove
  get-remove k [] j = ground arith
  get-remove k ((i, w) ∷ d) j = ground (arith, get-remove k d j, eq_iff k j, eq_iff i k, eq_iff i j)
