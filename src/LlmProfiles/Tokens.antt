-- ===== src/LlmProfiles/Tokens.antt =====
-- What saving and deleting do to the stored tokens, and a way to lose the active profile.
use cogni_cash.Base.{
  String, ◌≡◌, refl, Bool, true, false, not, ◌||◌, Option, some, List, [], ◌∷◌, map, if◌then◌else◌,
  truthy, is_text, filter, arith, Bool-cases, inl, inr, ◌==◌, eq_iff, ap,
}
use cogni_cash.LlmProfiles.{
  LlmProfile, Manager, masked_token, handle_save, handle_delete, saved_profiles, with_form,
  activate, ensure_active, replace_edited,
}
use cogni_cash.LlmProfiles.Active.{active_count}

abbrev tokens : List LlmProfile → List String
tokens = map (λ (p : LlmProfile). p.token)

tokens-activate :
    (o : Option String) (ps : List LlmProfile) → tokens (map (activate o) ps) ≡ tokens ps
unfolding activate
tokens-activate o [] = refl
tokens-activate o (p ∷ ps) = ap (◌∷◌ p.token) (tokens-activate o ps)

tokens-ensure_active : (ps : List LlmProfile) → tokens (ensure_active ps) ≡ tokens ps
unfolding ensure_active
tokens-ensure_active [] = refl
tokens-ensure_active (p ∷ ps) = ground arith

tokens-replace_edited :
    (o : Option String) (f : LlmProfile) (ps : List LlmProfile)
    → f.token ≡ masked_token
    → tokens (map (replace_edited o f) ps) ≡ tokens ps
unfolding replace_edited
tokens-replace_edited o f [] h = refl
tokens-replace_edited o f (p ∷ ps) h =
    let later = tokens-replace_edited o f ps h in
    elim (Bool-cases (is_text o p.id)) [
      | inl e ↦ rw (e, h, later) refl
      | inr e ↦ rw (e, later) refl
    ]

tokens-saved_profiles :
    (s : Manager)
    → s.is_adding ≡ false
    → s.edit_form.token ≡ masked_token
    → tokens (saved_profiles s) ≡ tokens s.profiles
unfolding saved_profiles with_form
tokens-saved_profiles s editing masked =
    let replaced = map (replace_edited s.editing_id s.edit_form) s.profiles in
    let same = tokens-replace_edited s.editing_id s.edit_form s.profiles masked in
    rw editing (either s.edit_form.is_active s.editing_id replaced same)
  where
    either :
        (active : Bool) (o : Option String) (ps : List LlmProfile) {l : List String}
        → tokens ps ≡ l
        → tokens (if active then map (activate o) ps else ensure_active ps) ≡ l
    either true o ps same = rw (tokens-activate o ps) same
    either false o ps same = rw (tokens-ensure_active ps) same

-- Saving an edited profile whose token was left masked changes no stored token.
pub tokens-handle_save :
    (s : Manager)
    → s.is_adding ≡ false
    → s.edit_form.token ≡ masked_token
    → tokens (handle_save s).profiles ≡ tokens s.profiles
unfolding handle_save
tokens-handle_save s editing masked =
    elim (Bool-cases (not (truthy s.edit_form.name) || not (truthy s.edit_form.model))) [
      | inl e ↦ rw e refl
      | inr e ↦ rw (e, tokens-saved_profiles s editing masked) refl
    ]

-- None of the profiles left has the id.
abbrev Lacks : String → List LlmProfile → Type 0
Lacks i [] = Unit
Lacks i (p ∷ ps) = (i == p.id ≡ false) × Lacks i ps

filter-Lacks :
    (i : String) (ps : List LlmProfile) → Lacks i (filter (λ (p : LlmProfile). not (p.id == i)) ps)
filter-Lacks i [] = tt
filter-Lacks i (p ∷ ps) = elim (Bool-cases (p.id == i)) [
  | inl e ↦ rw e (filter-Lacks i ps)
  | inr e ↦ rw e (ground (arith, eq_iff i p.id, eq_iff p.id i), filter-Lacks i ps)
]

ensure_active-Lacks : (i : String) (ps : List LlmProfile) → Lacks i ps → Lacks i (ensure_active ps)
unfolding ensure_active
ensure_active-Lacks i [] h = tt
ensure_active-Lacks i (p ∷ ps) h = ground arith

saved-none_active :
    (i : String) (f : LlmProfile) (ps : List LlmProfile)
    → Lacks i ps
    → active_count (map (activate (some i)) (map (replace_edited (some i) f) ps)) ≡ 0
unfolding active_count activate replace_edited
saved-none_active i f [] h = refl
saved-none_active i f (p ∷ ps) h = rw (h.0, h.0, saved-none_active i f ps h.1) refl

-- If the profile under edit is deleted and its form, with a name and a model, is then saved as
-- active, no profile is active any more.
pub active_count-handle_save :
    (s : Manager) (i : String)
    → s.is_adding ≡ false
    → s.editing_id ≡ some i
    → truthy s.edit_form.name ≡ true
    → truthy s.edit_form.model ≡ true
    → s.edit_form.is_active ≡ true
    → active_count (handle_save (handle_delete true i s)).profiles ≡ 0
unfolding handle_save handle_delete saved_profiles with_form
active_count-handle_save s i editing e name model active =
    let kept = ensure_active (filter (λ (p : LlmProfile). not (p.id == i)) s.profiles) in
    let lost = saved-none_active i s.edit_form kept (
      ensure_active-Lacks i (filter (λ (p : LlmProfile). not (p.id == i)) s.profiles)
        (filter-Lacks i s.profiles)) in
    simp (name, model, active, editing, e, lost)
