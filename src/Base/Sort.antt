-- ===== src/Base/Sort.antt =====
-- `Array.prototype.sort` with a comparator: a stable sort.
use mathlib.Core.List.{Perm}
use mathlib.Core.List.Perm
use cogni_cash.Base.Tests.{if◌then◌else◌, Bool-cases}
use cogni_cash.Base.Lists.{All, filter, length}
use cogni_cash.Base.Int.{ℤ, pos, neg, le_ℤ, ◌≤ℤ◌, neg_parts}
use mathlib.Core.Logic.{inl, inr}
use Prim.Native.Nat.{suc, ◌≤◌}
use mathlib.Core.Path.{◌≡◌, refl, ◌∙◌}
use mathlib.Core.Bool.{Bool, true, false}
use mathlib.Core.List.{List, [], ◌∷◌}
use native.Mathlib.Omega.{arith}

-- `dir === 'asc' ? cmp : -cmp`
pub data SortDir : Type 0 where
  asc desc : SortDir

abbrev pub directed : SortDir → ℤ → ℤ
directed asc c = c
directed desc c = neg c

neg_nonpos : (c : ℤ) → neg c ≤ℤ pos 0 → pos 0 ≤ℤ c
neg_nonpos c h = omega (arith, neg_parts c)

neg_of_nonneg : (c : ℤ) → pos 0 ≤ℤ c → neg c ≤ℤ pos 0
neg_of_nonneg c h = omega (arith, neg_parts c)

nonneg_of_neg : (c : ℤ) → c ≤ℤ pos 0 → pos 0 ≤ℤ neg c
nonneg_of_neg c h = omega (arith, neg_parts c)

nonpos_of_neg : (c : ℤ) → pos 0 ≤ℤ neg c → c ≤ℤ pos 0
nonpos_of_neg c h = omega (arith, neg_parts c)

module _ {ℓ} {A : Type ℓ} where
  -- What ECMAScript asks of a comparator before it promises a sorted result.
  pub record IsConsistent (cmp : A → A → ℤ) : Type ℓ where
    pub flip : (a b : A) → cmp a b ≤ℤ pos 0 → pos 0 ≤ℤ cmp b a
    pub unflip : (a b : A) → pos 0 ≤ℤ cmp b a → cmp a b ≤ℤ pos 0
    pub trans : (a b c : A) → cmp a b ≤ℤ pos 0 → cmp b c ≤ℤ pos 0 → cmp a c ≤ℤ pos 0

  module _ (cmp : A → A → ℤ) where
    unfoldable pub insert_by : A → List A → List A
    insert_by x [] = x ∷ []
    insert_by x (y ∷ ys) = if le_ℤ (cmp x y) (pos 0) then x ∷ y ∷ ys else y ∷ insert_by x ys

    unfoldable pub sort : List A → List A
    unfolding insert_by
    sort [] = []
    sort (x ∷ xs) = insert_by x (sort xs)

    -- Every element stands at or before each later one.
    abbrev pub IsSorted : List A → Type ℓ
    IsSorted [] = Unit
    IsSorted (x ∷ xs) = All (λ y. cmp x y ≤ℤ pos 0) xs × IsSorted xs

    insert_by-perm : (x : A) (ys : List A) → Perm (insert_by x ys) (x ∷ ys)
    unfolding insert_by
    insert_by-perm x [] = Perm.refl _
    insert_by-perm x (y ∷ ys) = elim (Bool-cases (le_ℤ (cmp x y) (pos 0))) [
      | inl e ↦ rw e (Perm.refl _)
      | inr e ↦ rw e (Perm.trans (Perm.cons y (insert_by-perm x ys)) (Perm.swap x y ys))
    ]

    -- Sorting keeps the elements.
    pub sort-perm : (xs : List A) → Perm (sort xs) xs
    unfolding sort
    sort-perm [] = Perm.refl _
    sort-perm (x ∷ xs) = Perm.trans (insert_by-perm x (sort xs)) (Perm.cons x (sort-perm xs))

    module _ (laws : IsConsistent cmp) where
      All-insert_by :
          (P : A → Type 0) (x : A) (ys : List A) → P x → All P ys → All P (insert_by x ys)
      unfolding insert_by
      All-insert_by P x [] p h = (p, tt)
      All-insert_by P x (y ∷ ys) p (q, h) = ground (arith, All-insert_by P x ys p h)

      All-trans :
          (x y : A) (ys : List A)
          → cmp x y ≤ℤ pos 0
          → All (λ z. cmp y z ≤ℤ pos 0) ys
          → All (λ z. cmp x z ≤ℤ pos 0) ys
      All-trans x y [] h k = tt
      All-trans x y (z ∷ zs) h (k, ks) = (laws.trans x y z h k, All-trans x y zs h ks)

      insert_by-IsSorted : (x : A) (ys : List A) → IsSorted ys → IsSorted (insert_by x ys)
      unfolding insert_by
      insert_by-IsSorted x [] h = (tt, tt)
      insert_by-IsSorted x (y ∷ ys) (b, s) = elim (Bool-cases (le_ℤ (cmp x y) (pos 0))) [
        | inl e ↦
            let first : cmp x y ≤ℤ pos 0 = ground arith in
            rw e ((first, All-trans x y ys first b), (b, s))
        | inr e ↦
            let first : cmp y x ≤ℤ pos 0 = laws.unflip y x (ground arith) in
            rw e (All-insert_by (λ z. cmp y z ≤ℤ pos 0) x ys first b, insert_by-IsSorted x ys s)
      ]

      -- With a consistent comparator the result is in order.
      pub sort-IsSorted : (xs : List A) → IsSorted (sort xs)
      unfolding sort
      sort-IsSorted [] = tt
      sort-IsSorted (x ∷ xs) = insert_by-IsSorted x (sort xs) (sort-IsSorted xs)

      -- The reverse of a consistent comparator is one.
      pub directed-IsConsistent : (dir : SortDir) → IsConsistent (λ a b. directed dir (cmp a b))
      directed-IsConsistent asc = laws
      directed-IsConsistent desc = record {
        flip = λ a b h. nonneg_of_neg _ (laws.unflip b a (neg_nonpos _ h));
        unflip = λ a b h. neg_of_nonneg _ (laws.flip b a (nonpos_of_neg _ h));
        trans = λ a b c h k. neg_of_nonneg _ (
            laws.flip c a (
              laws.trans c b a (laws.unflip c b (neg_nonpos _ k))
                (laws.unflip b a (neg_nonpos _ h))));
      }

module _ {A : Type 0} where
  -- The test holds between each element and each later one.
  abbrev pub Pairwise : (A → A → Bool) → List A → Type 0
  Pairwise r [] = Unit
  Pairwise r (x ∷ xs) = All (λ y. r x y ≡ true) xs × Pairwise r xs

  module _ (cmp : A → A → ℤ) where
    All-test :
        (r : A → A → Bool)
        → ((x y : A) → cmp x y ≤ℤ pos 0 → r x y ≡ true)
        → (x : A) (ys : List A) → All (λ y. cmp x y ≤ℤ pos 0) ys
        → All (λ y. r x y ≡ true) ys
    All-test r h x [] k = tt
    All-test r h x (y ∷ ys) (k, ks) = (h x y k, All-test r h x ys ks)

    pub IsSorted-Pairwise :
        (r : A → A → Bool)
        → ((x y : A) → cmp x y ≤ℤ pos 0 → r x y ≡ true)
        → (xs : List A) → IsSorted cmp xs
        → Pairwise r xs
    IsSorted-Pairwise r h [] s = tt
    IsSorted-Pairwise r h (x ∷ xs) (b, s) = (All-test r h x xs b, IsSorted-Pairwise r h xs s)

    -- Elements that the comparator does not tell apart.
    module _ (q : A → Bool) (tied : (x y : A) → q x ≡ true → q y ≡ true → cmp x y ≤ℤ pos 0) where
      filter-insert_by : (x : A) (ys : List A) → filter q (insert_by cmp x ys) ≡ filter q (x ∷ ys)
      unfolding insert_by
      filter-insert_by x [] = refl
      filter-insert_by x (y ∷ ys) = ground (arith, filter-insert_by x ys, tied x y)

      -- They keep their order.
      pub filter-sort : (xs : List A) → filter q (sort cmp xs) ≡ filter q xs
      unfolding sort
      filter-sort [] = refl
      filter-sort (x ∷ xs) = rw (filter-insert_by x (sort cmp xs)) (ground (arith, filter-sort xs))

    -- An element that passes a test alone stays alone.
    module _ (q : A → Bool) where
      insert_by-failing :
          (x : A) (ys : List A) → q x ≡ false → filter q (insert_by cmp x ys) ≡ filter q ys
      unfolding insert_by
      insert_by-failing x [] e = ground arith
      insert_by-failing x (y ∷ ys) e = ground (arith, insert_by-failing x ys e)

      insert_by-alone :
          (x : A) (ys : List A)
          → q x ≡ true
          → filter q ys ≡ []
          → filter q (insert_by cmp x ys) ≡ x ∷ []
      unfolding insert_by
      insert_by-alone x [] e h = ground arith
      insert_by-alone x (y ∷ ys) e h = ground (arith, insert_by-alone x ys e)

      none_left : (xs : List A) → suc (length xs) ≤ 1 → xs ≡ []
      none_left [] h = refl
      none_left (x ∷ xs) h = absurd (omega (arith, h))

      pub filter-sort-alone :
          (xs : List A) → length (filter q xs) ≤ 1 → filter q (sort cmp xs) ≡ filter q xs
      unfolding sort
      filter-sort-alone [] h = refl
      filter-sort-alone (x ∷ xs) h = elim (Bool-cases (q x)) [
        | inl e ↦
            let left = none_left (filter q xs) (rw e at h) in
            let sorted = filter-sort-alone xs (rw left (omega arith)) in
            rw (e, left, insert_by-alone x (sort cmp xs) e (sorted ∙ left)) refl
        | inr e ↦ rw (e, insert_by-failing x (sort cmp xs) e, filter-sort-alone xs (rw e at h)) refl
      ]
