-- ===== src/Base/Shapes.antt =====
-- What the shapes of dates say of the length of a text.
use Prim.Native.String
use Prim.Native.String.{String, [], ◌∷◌}
use text.Mathlib.TextLemmas.{length-cons, length-nil, nil-append, cons-append}
use Prim.Native.Nat.{ℕ, suc, ◌+◌, ◌<◌, ◌≤◌}
use Prim.Native.Char.{Char, code}
use mathlib.Core.Path.{◌≡◌, refl, ap}
use mathlib.Core.Logic.{inl, inr}
use mathlib.Core.Bool.{Bool, true, false, ◌&&◌}
use native.Mathlib.Omega.{arith}
use text.Mathlib.Text.{◌==◌}
use text.Mathlib.TextEquality.{eq_iff}
use cogni_cash.Base.Tests.{if◌then◌else◌, Bool-cases, ltb, leb, nat_eq}
use cogni_cash.Base.Lists.{length}
use cogni_cash.Base.Text.{truthy, has_shape, take_text, is_digit, split_char}

and_parts : (a b : Bool) → (a && b) ≡ true → b ≡ true
and_parts a b h = ground arith

pub has_shape-count-le : (p s : String) → has_shape p s ≡ true → String.count p ≤ String.count s
unfolding has_shape
has_shape-count-le [] s h = omega (arith, length-nil)
has_shape-count-le (p ∷ ps) [] h = cc
has_shape-count-le (p ∷ ps) (c ∷ s) h =
    let rest = has_shape-count-le ps s (and_parts _ (has_shape ps s) h) in
    omega (arith, rest, length-cons p ps, length-cons c s)

nonempty_cons : (c : Char) (s : String) → truthy (c ∷ s) ≡ true
nonempty_cons c s = elim (Bool-cases ((c ∷ s) == "")) [
  | inl e ↦ absurd (
      let same = ap String.count ((eq_iff (c ∷ s) "").0 e) in
      omega (arith, same, length-cons c s, length-nil))
  | inr e ↦ rw e refl
]

pub is_nonempty : (s : String) → 0 < String.count s → truthy s ≡ true
is_nonempty [] h = absurd (omega (arith, h, length-nil))
is_nonempty (c ∷ s) h = nonempty_cons c s

pub take_text-nonempty :
    (n : ℕ) (s : String) → truthy s ≡ true → truthy (take_text (suc n) s) ≡ true
unfolding take_text
take_text-nonempty n [] h = h
take_text-nonempty n (c ∷ s) h = nonempty_cons c (take_text n s)

pub ltb_of_lt : (a b : ℕ) → a < b → ltb a b ≡ true
ltb_of_lt a b h = ground arith

-- How often a character stands in a text.
unfoldable pub occurrences : ℕ → String → ℕ
occurrences n [] = 0
occurrences n (c ∷ s) = (if nat_eq (code c) n then 1 else 0) + occurrences n s

zero_before : (m : ℕ) → m ≡ 0 + m
zero_before m = omega arith

pub occurrences-append :
    (n : ℕ) (s t : String) → occurrences n (String.◌++◌ s t) ≡ occurrences n s + occurrences n t
unfolding occurrences
occurrences-append n [] t = rw (nil-append t) (zero_before (occurrences n t))
occurrences-append n (c ∷ s) t = rw (cons-append c s t, occurrences-append n s t) (omega arith)

same_count :
    (c d : Char) (s t : String)
    → String.count (c ∷ s) ≡ String.count (d ∷ t)
    → String.count s ≡ String.count t
same_count c d s t h = omega (arith, h, length-cons c s, length-cons d t)

-- A character that is no digit stands in a text as often as in its shape.
pub occurrences-has_shape :
    (n : ℕ) (p s : String)
    → leb b'0' n ≡ false
    → has_shape p s ≡ true
    → String.count s ≡ String.count p
    → occurrences n s ≡ occurrences n p
unfolding occurrences has_shape is_digit
occurrences-has_shape n [] [] l h k = refl
occurrences-has_shape n [] (c ∷ s) l h k = absurd (omega (arith, k, length-cons c s, length-nil))
occurrences-has_shape n (p ∷ ps) [] l h k = cc
occurrences-has_shape n (p ∷ ps) (c ∷ s) l h k =
    let rest =
      occurrences-has_shape n ps s l (and_parts _ (has_shape ps s) h) (same_count c p s ps k) in
    rw rest (ground arith)

pub length-split_char :
    (a : ℕ) (cur s : String) → length (split_char a cur s) ≡ suc (occurrences a s)
unfolding occurrences split_char
length-split_char a cur [] = refl
length-split_char a cur (c ∷ s) = elim (Bool-cases (nat_eq (code c) a)) [
  | inl e ↦ rw (e, length-split_char a "" s) (omega arith)
  | inr e ↦ rw (e, length-split_char a (String.◌++◌ cur (c ∷ [])) s) (omega arith)
]
