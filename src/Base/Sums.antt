-- ===== src/Base/Sums.antt =====
-- Sums of amounts over lists, sorted lists and dictionaries.
use Prim.Native.Nat.{suc}
use Prim.Native.String.{String}
use mathlib.Core.Path.{◌≡◌, refl, ap}
use mathlib.Core.Bool.{Bool, true, false}
use mathlib.Core.Logic.{inl, inr}
use mathlib.Core.Option.{Option, none, some}
use mathlib.Core.List.{List, [], ◌∷◌, map}
use text.Mathlib.Text.{◌==◌}
use cogni_cash.Base.Tests.{if◌then◌else◌, Bool-cases}
use cogni_cash.Base.Lists.{length, filter}
use cogni_cash.Base.Int.{ℤ, pos, ◌+ℤ◌, le_ℤ, sum_of, int_laws, parts_of_eq, neg}
use cogni_cash.Base.Collections.{get, put}
use cogni_cash.Base.Sort.{sort, insert_by}

module _ {ℓ} {A : Type ℓ} (f : A → ℤ) where
  sum_of-insert_by :
      (cmp : A → A → ℤ) (x : A) (ys : List A) → sum_of f (insert_by cmp x ys) ≡ f x +ℤ sum_of f ys
  unfolding insert_by sum_of
  sum_of-insert_by cmp x [] = refl
  sum_of-insert_by cmp x (y ∷ ys) = elim (Bool-cases (le_ℤ (cmp x y) (pos 0))) [
    | inl e ↦ rw e refl
    | inr e ↦ rw (e, sum_of-insert_by cmp x ys) (omega int_laws)
  ]

  -- Sorting keeps the sum.
  pub sum_of-sort : (cmp : A → A → ℤ) (xs : List A) → sum_of f (sort cmp xs) ≡ sum_of f xs
  unfolding sort sum_of
  sum_of-sort cmp [] = refl
  sum_of-sort cmp (x ∷ xs) = rw (sum_of-insert_by cmp x (sort cmp xs), sum_of-sort cmp xs)

  pub sum_of-filter :
      (p : A → Bool) (xs : List A)
      → sum_of f (filter p xs) ≡ sum_of (λ x. if p x then f x else pos 0) xs
  unfolding sum_of
  sum_of-filter p [] = refl
  sum_of-filter p (x ∷ xs) = elim (Bool-cases (p x)) [
    | inl e ↦ rw (e, sum_of-filter p xs) refl
    | inr e ↦ rw (e, sum_of-filter p xs) (omega int_laws)
  ]

  pub sum_of-cong : (g : A → ℤ) → ((x : A) → f x ≡ g x) → (xs : List A) → sum_of f xs ≡ sum_of g xs
  unfolding sum_of
  sum_of-cong g h [] = refl
  sum_of-cong g h (x ∷ xs) = rw (h x, sum_of-cong g h xs) refl

  pub sum_of-add :
      (g : A → ℤ) (xs : List A) → sum_of f xs +ℤ sum_of g xs ≡ sum_of (λ x. f x +ℤ g x) xs
  unfolding sum_of
  sum_of-add g [] = omega int_laws
  sum_of-add g (x ∷ xs) = omega (int_laws, parts_of_eq (sum_of-add g xs))

  pub neg-sum_of : (xs : List A) → neg (sum_of f xs) ≡ sum_of (λ x. neg (f x)) xs
  unfolding sum_of
  neg-sum_of [] = omega int_laws
  neg-sum_of (x ∷ xs) = omega (int_laws, parts_of_eq (neg-sum_of xs))

pub sum_of-map {ℓ κ} :
    {A : Type ℓ} {B : Type κ} (f : B → ℤ) (g : A → B) (xs : List A)
    → sum_of f (map g xs) ≡ sum_of (λ x. f (g x)) xs
unfolding sum_of
sum_of-map f g [] = refl
sum_of-map f g (x ∷ xs) = rw (sum_of-map f g xs) refl

module _ {ℓ} {A : Type ℓ} (cmp : A → A → ℤ) where
  length-insert_by : (x : A) (ys : List A) → length (insert_by cmp x ys) ≡ suc (length ys)
  unfolding insert_by
  length-insert_by x [] = refl
  length-insert_by x (y ∷ ys) = elim (Bool-cases (le_ℤ (cmp x y) (pos 0))) [
    | inl e ↦ rw e refl
    | inr e ↦ rw e (ap suc (length-insert_by x ys))
  ]

  pub length-sort : (xs : List A) → length (sort cmp xs) ≡ length xs
  unfolding sort
  length-sort [] = refl
  length-sort (x ∷ xs) = rw (length-insert_by x (sort cmp xs), length-sort xs) refl

module _ {ℓ} {V : Type ℓ} (k : String) (v : V) (j : String) (w : V) (d : List (String × V)) where
  put-hit : j == k ≡ true → put k v ((j, w) ∷ d) ≡ (j, v) ∷ d
  unfolding put
  put-hit e = rw e refl

  put-miss : j == k ≡ false → put k v ((j, w) ∷ d) ≡ (j, w) ∷ put k v d
  unfolding put
  put-miss e = rw e refl

module _ {ℓ} {V : Type ℓ} (k j : String) (w : V) (d : List (String × V)) where
  get-hit : j == k ≡ true → get ((j, w) ∷ d) k ≡ some w
  unfolding get
  get-hit e = rw e refl

  get-miss : j == k ≡ false → get ((j, w) ∷ d) k ≡ get d k
  unfolding get
  get-miss e = rw e refl

-- Amounts that agree up to a common summand.
pub swap_share :
    (rest' rest out new added : ℤ)
    → rest' +ℤ out ≡ rest +ℤ new
    → new ≡ out +ℤ added
    → rest' ≡ rest +ℤ added
swap_share rest' rest out new added h e = omega (int_laws, parts_of_eq h, parts_of_eq e)

under_head :
    (w rest' rest out new : ℤ) → rest' +ℤ out ≡ rest +ℤ new → w +ℤ rest' +ℤ out ≡ w +ℤ rest +ℤ new
under_head w rest' rest out new h = omega (int_laws, parts_of_eq h)

module _ {ℓ} {V : Type ℓ} (f : V → ℤ) where
  -- What an entry contributes.
  abbrev pub share : Option V → ℤ
  share none = pos 0
  share (some v) = f v

  put_empty :
      (k : String) (v : V)
      → sum_of (λ (e : String × V). f e.1) (put k v []) +ℤ share (get [] k)
        ≡ sum_of (λ (e : String × V). f e.1) [] +ℤ f v
  unfolding put get sum_of
  put_empty k v = omega int_laws

  -- Writing an entry replaces its contribution.
  pub sum_of-put :
      (k : String) (v : V) (d : List (String × V))
      → sum_of (λ (e : String × V). f e.1) (put k v d) +ℤ share (get d k)
        ≡ sum_of (λ (e : String × V). f e.1) d +ℤ f v
  unfolding sum_of
  sum_of-put k v [] = put_empty k v
  sum_of-put k v ((j, w) ∷ d) = elim (Bool-cases (j == k)) [
    | inl e ↦ rw (put-hit k v j w d e, get-hit k j w d e) (omega int_laws)
    | inr e ↦
        rw (put-miss k v j w d e, get-miss k j w d e)
          (under_head (f w) (sum_of (λ (e : String × V). f e.1) (put k v d))
            (sum_of (λ (e : String × V). f e.1) d) (share (get d k)) (f v) (sum_of-put k v d))
  ]
