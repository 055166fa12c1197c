-- ===== src/Base/Members.antt =====
-- Membership in filtered lists.
use mathlib.Core.List.{Mem, Mem-prop, mem-cons, not-mem-nil}
use mathlib.Core.Logic.Or
use mathlib.Core.HLevel.{×_prop}
use mathlib.Core.Path.{◌≡◌, sym, ap, ◌∙◌}
use mathlib.Core.Logic.{◌↔◌, inl, inr, ∨₁_prop}
use mathlib.Core.Bool.{Bool, true, false≢true}
use mathlib.Core.List.{List, [], ◌∷◌}
use cogni_cash.Base.Tests.{Bool-cases}
use cogni_cash.Base.Lists.{filter}

bool_prop : (b c : Bool) → IsProp (b ≡ c)
bool_prop b c = hlevel

module _ {ℓ} {A : Type ℓ} where
  pub mem-filter :
      (keep : A → Bool) (x : A) (xs : List A)
      → Mem x (filter keep xs) ↔ (Mem x xs × (keep x ≡ true))
  mem-filter keep x [] = (λ m. absurd (not-mem-nil m), λ m. m.0)
  mem-filter keep x (y ∷ xs) =
      let ih = mem-filter keep x xs in
      let P = Mem x (y ∷ xs) × (keep x ≡ true) in
      let prop : IsProp P = ×_prop Mem-prop (bool_prop _ _) in
      elim (Bool-cases (keep y)) [
        | inl e ↦ rw e (
          λ m.
              Or.elim prop (mem-cons.0 m) (λ q. (mem-cons.1 (Or.inl q), rw q e))
                (λ k. (mem-cons.1 (Or.inr (ih.0 k).0), (ih.0 k).1)),
          λ m.
              mem-cons.1
                (Or.elim ∨₁_prop (mem-cons.0 m.0) (λ q. Or.inl q) (λ k. Or.inr (ih.1 (k, m.1)))),
        )
        | inr e ↦ rw e (
          λ m. (mem-cons.1 (Or.inr (ih.0 m).0), (ih.0 m).1),
          λ m.
              Or.elim Mem-prop (mem-cons.0 m.0)
                (λ q. absurd (false≢true (sym e ∙ ap keep (sym q) ∙ m.1))) (λ k. ih.1 (k, m.1)),
        )
      ]
