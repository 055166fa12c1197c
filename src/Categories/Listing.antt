-- ===== src/Categories/Listing.antt =====
-- Which categories are listed, and in which order.
use mathlib.Core.List.{Perm}
use cogni_cash.Base.{Bool, true, false, not, ◌||◌, List, filter, arith}
use cogni_cash.Base.Int.{ℤ, pos, ◌≤ℤ◌}
use cogni_cash.Base.Sort.{sort-perm, sort-IsSorted, IsSorted, IsConsistent}
use cogni_cash.Base.Platform.{Platform}
use cogni_cash.Types.{Category}
use cogni_cash.Categories.{is_deleted, deleted_last, category_order, sorted}

module _ (platform : Platform) where
  flip_last :
      (a b : Bool) (x y : ℤ)
      → (x ≤ℤ pos 0 → pos 0 ≤ℤ y)
      → deleted_last platform a b x ≤ℤ pos 0
      → pos 0 ≤ℤ deleted_last platform b a y
  flip_last true true x y h = h
  flip_last false false x y h = h
  flip_last true false x y h = λ k. ground arith
  flip_last false true x y h = λ k. ground arith

  unflip_last :
      (a b : Bool) (x y : ℤ)
      → (pos 0 ≤ℤ y → x ≤ℤ pos 0)
      → pos 0 ≤ℤ deleted_last platform b a y
      → deleted_last platform a b x ≤ℤ pos 0
  unflip_last true true x y h = h
  unflip_last false false x y h = h
  unflip_last true false x y h = λ k. ground arith
  unflip_last false true x y h = λ k. ground arith

  trans_last :
      (a b c : Bool) (x y z : ℤ)
      → (x ≤ℤ pos 0 → y ≤ℤ pos 0 → z ≤ℤ pos 0)
      → deleted_last platform a b x ≤ℤ pos 0
      → deleted_last platform b c y ≤ℤ pos 0
      → deleted_last platform a c z ≤ℤ pos 0
  trans_last true true true x y z h = h
  trans_last false false false x y z h = h
  trans_last true true false x y z h = λ k l. ground arith
  trans_last true false c x y z h = λ k l. ground arith
  trans_last false true true x y z h = λ k l. ground arith
  trans_last false true false x y z h = λ k l. ground arith
  trans_last false false true x y z h = λ k l. ground arith

  category_order-IsConsistent : IsConsistent (category_order platform)
  category_order-IsConsistent = record {
    flip =
        λ a b. flip_last (is_deleted a) (is_deleted b) _ _ (platform.collation.flip a.name b.name);
    unflip = λ a b.
        unflip_last (is_deleted a) (is_deleted b) _ _ (platform.collation.unflip a.name b.name);
    trans = λ a b c.
        trans_last (is_deleted a) (is_deleted b) (is_deleted c) _ _ _
          (platform.collation.trans a.name b.name c.name);
  }

  -- The listed categories are those fetched that are not deleted, or all of them if deleted ones
  -- are shown, each as often as it was fetched, in the order of their names and with the deleted
  -- ones last.
  pub sorted-IsSorted :
      (show_deleted : Bool) (categories : List Category)
      → Perm
          (sorted platform show_deleted categories)
          (filter (λ c. show_deleted || not (is_deleted c)) categories)
        × IsSorted (category_order platform) (sorted platform show_deleted categories)
  unfolding sorted
  sorted-IsSorted show_deleted categories =
      let kept = filter (λ c. show_deleted || not (is_deleted c)) categories in
      (
        sort-perm (category_order platform) kept,
        sort-IsSorted (category_order platform) category_order-IsConsistent kept,
      )
