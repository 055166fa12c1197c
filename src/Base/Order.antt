-- ===== src/Base/Order.antt =====
-- Comparators: texts by code points (`<` and the default `sort()`), amounts by their difference,
-- and comparators on a key.
use Prim.Native.Nat.{compare, Ordering}
use Prim.Native.Char.{Char, code}
use Prim.Native.String
use Prim.Native.String.{String, [], ◌∷◌, then}
use Prim.Native.String.compare as string_compare
use mathlib.Core.Path.{◌≡◌, refl}
use mathlib.Core.Logic.{◌≢◌, ◌↔◌}
use mathlib.Core.Bool.{Bool, true, false, cond}
use native.Mathlib.Omega.{arith}
use text.Mathlib.TextEquality.{path_by_compare}
use text.Mathlib.TextPositions.{compare_refl}
use cogni_cash.Base.Text.{text_le, text_lt}
use cogni_cash.Base.Int.{ℤ, pos, negsuc, eq_ℤ, lt_ℤ, ◌-ℤ◌, ◌≤ℤ◌, -ℤ_parts}
use cogni_cash.Base.Sort.{IsConsistent}

abbrev sign : Ordering → ℤ
sign Ordering.lt = negsuc 0
sign Ordering.eq = pos 0
sign Ordering.gt = pos 1

-- The default comparator of `sort()`.
abbrev pub text_compare : String → String → ℤ
text_compare s t = sign (String.compare s t)

cons_compare :
    (c d : Char) (s t : String)
    → String.compare (c ∷ s) (d ∷ t) ≡ then (compare (code c) (code d)) (String.compare s t)
cons_compare c d s t = string_compare.cons-cons c d s t

swapped : Ordering → Ordering
swapped Ordering.lt = Ordering.gt
swapped Ordering.eq = Ordering.eq
swapped Ordering.gt = Ordering.lt

compare_swap : (s t : String) → String.compare t s ≡ swapped (String.compare s t)
unfolding swapped
compare_swap [] [] = rw string_compare.nil-nil refl
compare_swap [] (d ∷ t) = rw (string_compare.nil-cons d t, string_compare.cons-nil d t) refl
compare_swap (c ∷ s) [] = rw (string_compare.nil-cons c s, string_compare.cons-nil c s) refl
compare_swap (c ∷ s) (d ∷ t) =
    rw (cons_compare c d s t, cons_compare d c t s) (ground (arith, compare_swap s t))

compare_trans :
    (s t u : String)
    → String.compare s t ≢ Ordering.gt
    → String.compare t u ≢ Ordering.gt
    → String.compare s u ≢ Ordering.gt
compare_trans [] t [] h k = rw string_compare.nil-nil (λ e. cc)
compare_trans [] t (e ∷ u) h k = rw (string_compare.nil-cons e u) (λ e. cc)
compare_trans (c ∷ s) [] u h k = absurd (h (string_compare.cons-nil c s))
compare_trans (c ∷ s) (d ∷ t) [] h k = absurd (k (string_compare.cons-nil d t))
compare_trans (c ∷ s) (d ∷ t) (e ∷ u) h k =
    let h' = rw (cons_compare c d s t) at h in
    let k' = rw (cons_compare d e t u) at k in
    rw (cons_compare c e s u) (ground (arith, compare_trans s t u))

pub text_compare-IsConsistent : IsConsistent text_compare
unfolding swapped
text_compare-IsConsistent = record {
  flip = λ a b h. ground (arith, compare_swap a b);
  unflip = λ a b h. ground (arith, compare_swap a b);
  trans = λ a b c h k. ground (arith, compare_trans a b c);
}

-- `<=` on texts.
pub text_le_iff : (s t : String) → (text_le s t ≡ true) ↔ (text_compare s t ≤ℤ pos 0)
unfolding swapped
text_le_iff s t = ground (arith, compare_swap s t)

pub text_compare_refl : (s : String) → text_compare s s ≤ℤ pos 0
text_compare_refl s = rw (compare_refl s) (omega arith)

pub text_le_antisymm : (s t : String) → text_le s t ≡ true → text_le t s ≡ true → s ≡ t
unfolding swapped
text_le_antisymm s t h k = path_by_compare s t (ground (arith, compare_swap s t))

pub text_le_refl : (s : String) → text_le s s ≡ true
text_le_refl s = (text_le_iff s s).1 (text_compare_refl s)

-- `if (a < b) -1; if (a > b) 1; else 0`
abbrev pub three_way : Bool → Bool → ℤ
three_way true after = negsuc 0
three_way false true = pos 1
three_way false false = pos 0

pub three_way-text : (s t : String) → three_way (text_lt s t) (text_lt t s) ≡ text_compare s t
unfolding swapped
three_way-text s t = ground (arith, compare_swap s t)

pub three_way_text-IsConsistent :
    IsConsistent (λ (s t : String). three_way (text_lt s t) (text_lt t s))
three_way_text-IsConsistent = record {
  flip = λ a b. rw (three_way-text a b, three_way-text b a) (text_compare-IsConsistent.flip a b);
  unflip =
      λ a b. rw (three_way-text a b, three_way-text b a) (text_compare-IsConsistent.unflip a b);
  trans = λ a b c.
      rw (three_way-text a b, three_way-text b c, three_way-text a c)
        (text_compare-IsConsistent.trans a b c);
}

pub three_way_amount-IsConsistent : IsConsistent (λ (x y : ℤ). three_way (lt_ℤ x y) (lt_ℤ y x))
three_way_amount-IsConsistent = record {
  flip = λ a b h. ground arith;
  unflip = λ a b h. ground arith;
  trans = λ a b c h k. ground arith;
}

-- `a.amount - b.amount`
pub amount_compare-IsConsistent {ℓ} : {A : Type ℓ} (f : A → ℤ) → IsConsistent (λ a b. f a -ℤ f b)
amount_compare-IsConsistent f = record {
  flip = λ a b h. omega (arith, -ℤ_parts (f a) (f b), -ℤ_parts (f b) (f a));
  unflip = λ a b h. omega (arith, -ℤ_parts (f a) (f b), -ℤ_parts (f b) (f a));
  trans =
      λ a b c h k. omega (arith, -ℤ_parts (f a) (f b), -ℤ_parts (f b) (f c), -ℤ_parts (f a) (f c));
}

-- `b.amount - a.amount`
pub amount_descending-IsConsistent {ℓ} : {A : Type ℓ} (f : A → ℤ) → IsConsistent (λ a b. f b -ℤ f a)
amount_descending-IsConsistent f = record {
  flip = λ a b h. omega (arith, -ℤ_parts (f a) (f b), -ℤ_parts (f b) (f a));
  unflip = λ a b h. omega (arith, -ℤ_parts (f a) (f b), -ℤ_parts (f b) (f a));
  trans =
      λ a b c h k. omega (arith, -ℤ_parts (f b) (f a), -ℤ_parts (f c) (f b), -ℤ_parts (f c) (f a));
}

-- A comparator on a key of the elements.
pub on_key-IsConsistent {ℓ κ} :
    {A : Type ℓ} {K : Type κ} (cmp : K → K → ℤ) (key : A → K)
    → IsConsistent cmp
    → IsConsistent (λ a b. cmp (key a) (key b))
on_key-IsConsistent cmp key laws = record {
  flip = λ a b. laws.flip (key a) (key b);
  unflip = λ a b. laws.unflip (key a) (key b);
  trans = λ a b c. laws.trans (key a) (key b) (key c);
}

-- The comparator that finds everything equal.
pub zero-IsConsistent {ℓ} : {A : Type ℓ} → IsConsistent {A = A} (λ a b. pos 0)
zero-IsConsistent = record { flip = λ a b h. h; unflip = λ a b h. h; trans = λ a b c h k. h }

-- `first || second`: the second comparator decides where the first finds the two equal.
abbrev pub or_else : ℤ → ℤ → ℤ
or_else a b = cond (eq_ℤ a (pos 0)) b a

module _ {ℓ} {A : Type ℓ} (c₁ c₂ : A → A → ℤ) (l₁ : IsConsistent c₁) (l₂ : IsConsistent c₂) where
  pub or_else-IsConsistent : IsConsistent (λ a b. or_else (c₁ a b) (c₂ a b))
  or_else-IsConsistent = record {
    flip = λ a b h. ground (arith, l₁.flip a b, l₁.flip b a, l₁.unflip b a, l₂.flip a b);
    unflip = λ a b h. ground (arith, l₁.unflip a b, l₁.unflip b a, l₁.flip b a, l₂.unflip a b);
    trans = λ a b c h k. ground (
      arith,
      l₁.trans a b c,
      l₁.trans c b a,
      l₁.trans c a b,
      l₁.trans b c a,
      l₁.flip a b,
      l₁.flip b a,
      l₁.unflip a b,
      l₁.unflip b a,
      l₁.flip b c,
      l₁.flip c b,
      l₁.unflip b c,
      l₁.unflip c b,
      l₁.flip a c,
      l₁.flip c a,
      l₁.unflip a c,
      l₁.unflip c a,
      l₂.trans a b c,
    );
  }
