-- ===== src/LlmProfiles/Active.antt =====
-- How many profiles of a list are active, and the ids of a list.
use cogni_cash.Base.{
  ℕ, ◌≤◌, String, ◌≡◌, refl, Bool, true, false, not, Option, some, List, [], ◌∷◌, ◌++◌, map, filter,
  all, length, arith, Bool-cases, inl, inr, ◌⊎◌, eq_iff, ◌==◌, ap,
}
use cogni_cash.Base.Collections.{JsSet, has, Distinct}
use cogni_cash.LlmProfiles.{LlmProfile, activate, ensure_active, replace_edited}

abbrev pub ids : List LlmProfile → JsSet
ids = map (λ (p : LlmProfile). p.id)

unfoldable pub active_count : List LlmProfile → ℕ
active_count ps = length (filter (λ (p : LlmProfile). p.is_active) ps)

-- There is no profile, or exactly one is active.
abbrev pub OneActive : List LlmProfile → Type 0
OneActive ps = (ps ≡ []) ⊎ (active_count ps ≡ 1)

pub active_count-le_one : (ps : List LlmProfile) → OneActive ps → active_count ps ≤ 1
unfolding active_count
active_count-le_one ps (inl e) = rw e (omega arith)
active_count-le_one ps (inr e) = omega (arith, e)

pub active_count-activate_none :
    (ps : List LlmProfile) (i : String)
    → has (ids ps) i ≡ false
    → active_count (map (activate (some i)) ps) ≡ 0
unfolding active_count activate has
active_count-activate_none [] i h = refl
active_count-activate_none (p ∷ ps) i h =
    ground (arith, active_count-activate_none ps i, eq_iff p.id i, eq_iff i p.id)

-- Activating a profile of the list leaves exactly one active.
pub active_count-activate :
    (ps : List LlmProfile) (i : String)
    → Distinct (ids ps)
    → has (ids ps) i ≡ true
    → active_count (map (activate (some i)) ps) ≡ 1
unfolding active_count activate has
active_count-activate [] i d h = cc
active_count-activate (p ∷ ps) i (n, d) h = ground (
  arith,
  active_count-activate ps i d,
  active_count-activate_none ps i,
  eq_iff p.id i,
  eq_iff i p.id,
)

pub ids-activate : (o : Option String) (ps : List LlmProfile) → ids (map (activate o) ps) ≡ ids ps
unfolding activate
ids-activate o [] = refl
ids-activate o (p ∷ ps) = ap (◌∷◌ p.id) (ids-activate o ps)

pub ids-ensure_active : (ps : List LlmProfile) → ids (ensure_active ps) ≡ ids ps
unfolding ensure_active
ids-ensure_active [] = refl
ids-ensure_active (p ∷ ps) = ground arith

active_count-zero :
    (ps : List LlmProfile)
    → all (λ (p : LlmProfile). not p.is_active) ps ≡ true
    → active_count ps ≡ 0
unfolding active_count
active_count-zero [] h = refl
active_count-zero (p ∷ ps) h = ground (arith, active_count-zero ps)

active_count-pos :
    (ps : List LlmProfile)
    → all (λ (p : LlmProfile). not p.is_active) ps ≡ false
    → 1 ≤ active_count ps
unfolding active_count
active_count-pos [] h = cc
active_count-pos (p ∷ ps) h = ground (arith, active_count-pos ps)

pub ensure_active-OneActive :
    (ps : List LlmProfile) → active_count ps ≤ 1 → OneActive (ensure_active ps)
unfolding ensure_active active_count
ensure_active-OneActive [] h = inl refl
ensure_active-OneActive (p ∷ ps) h =
    elim (Bool-cases (all (λ (q : LlmProfile). not q.is_active) (p ∷ ps))) [
      | inl e ↦ inr (rw e (ground (arith, active_count-zero ps)))
      | inr e ↦ inr (rw e (ground (arith, active_count-pos (p ∷ ps) e)))
    ]

pub active_count-append :
    (ps : List LlmProfile) (f : LlmProfile)
    → f.is_active ≡ false
    → active_count (ps ++ (f ∷ [])) ≡ active_count ps
unfolding active_count
active_count-append [] f h = ground arith
active_count-append (p ∷ ps) f h = ground (arith, active_count-append ps f h)

pub active_count-filter-le :
    (keep : LlmProfile → Bool) (ps : List LlmProfile)
    → active_count (filter keep ps) ≤ active_count ps
unfolding active_count
active_count-filter-le keep [] = omega arith
active_count-filter-le keep (p ∷ ps) = ground (arith, active_count-filter-le keep ps)

module _ (i : String) (f : LlmProfile) where
  -- Replacing a profile by an inactive one activates none.
  pub active_count-replace_edited-le :
      (ps : List LlmProfile)
      → f.is_active ≡ false
      → active_count (map (replace_edited (some i) f) ps) ≤ active_count ps
  unfolding active_count replace_edited
  active_count-replace_edited-le [] h = omega arith
  active_count-replace_edited-le (p ∷ ps) h = ground (arith, active_count-replace_edited-le ps h)

  pub ids-replace_edited :
      (ps : List LlmProfile) → f.id ≡ i → ids (map (replace_edited (some i) f) ps) ≡ ids ps
  unfolding replace_edited
  ids-replace_edited [] h = refl
  ids-replace_edited (p ∷ ps) h = ground (arith, ids-replace_edited ps h, eq_iff i p.id)

pub ids-append :
    (ps : List LlmProfile) (f : LlmProfile) → ids (ps ++ (f ∷ [])) ≡ ids ps ++ (f.id ∷ [])
ids-append [] f = refl
ids-append (p ∷ ps) f = ap (◌∷◌ p.id) (ids-append ps f)

pub has-filter :
    (keep : LlmProfile → Bool) (ps : List LlmProfile) (i : String)
    → has (ids ps) i ≡ false
    → has (ids (filter keep ps)) i ≡ false
unfolding has
has-filter keep [] i h = refl
has-filter keep (p ∷ ps) i h = ground (arith, has-filter keep ps i)

pub filter-Distinct :
    (keep : LlmProfile → Bool) (ps : List LlmProfile)
    → Distinct (ids ps)
    → Distinct (ids (filter keep ps))
filter-Distinct keep [] d = tt
filter-Distinct keep (p ∷ ps) (n, d) = elim (Bool-cases (keep p)) [
  | inl e ↦ rw e (has-filter keep ps p.id n, filter-Distinct keep ps d)
  | inr e ↦ rw e (filter-Distinct keep ps d)
]

-- Deleting one id leaves the others.
pub has-deleted :
    (ps : List LlmProfile) (id i : String)
    → id == i ≡ false
    → has (ids (filter (λ (p : LlmProfile). not (p.id == id)) ps)) i ≡ has (ids ps) i
unfolding has
has-deleted [] id i h = refl
has-deleted (p ∷ ps) id i h = ground (arith, has-deleted ps id i h, eq_iff p.id id, eq_iff p.id i)
