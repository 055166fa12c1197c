-- ===== src/LlmProfiles/Steps.antt =====
-- What the user can do with the list of profiles and its form, as a step relation.
use cogni_cash.Base.{
  String, ◌≡◌, refl, Bool, true, false, not, Option, none, some, List, [], ◌∷◌, ◌++◌, map,
  if◌then◌else◌, truthy, is_text, filter, arith, Bool-cases, inl, inr, ◌⊎◌, ◌||◌, eq_refl, eq_iff,
  ◌==◌,
}
use cogni_cash.Base.Collections.{has, Distinct, Distinct-append, has-append}
use cogni_cash.LlmProfiles.{
  LlmProfile, Manager, handle_add, handle_edit, handle_save, handle_delete, handle_cancel,
  toggle_active, toggle_token_visibility, saved_profiles, with_form, activate, ensure_active,
  replace_edited,
}
use cogni_cash.LlmProfiles.Active.{
  ids, OneActive, active_count-le_one, active_count-activate, ids-activate, ids-ensure_active,
  ensure_active-OneActive, active_count-append, active_count-filter-le,
  active_count-replace_edited-le, ids-replace_edited, ids-append, filter-Distinct, has-deleted,
  has-filter,
}

-- What the form is open for.
abbrev pub IsForm : Bool → Option String → Manager → Type 0
IsForm true e s = (has (ids s.profiles) s.edit_form.id ≡ false) × (e ≡ none)
IsForm false none s = Unit
IsForm false (some i) s = (s.edit_form.id ≡ i) × (has (ids s.profiles) i ≡ true)

-- The ids differ, one profile is active unless there is none, and the form is for a new id or for
-- the profile under edit.
abbrev pub IsValid : Manager → Type 0
IsValid s = Distinct (ids s.profiles) × OneActive s.profiles × IsForm s.is_adding s.editing_id s

-- One action. The form is filled in without changing the id; a profile is not deleted while it is
-- edited; the buttons of a profile act on one of the list.
pub data Step : Manager → Manager → Type 0 where
  add :
      (s : Manager) (uuid : String) → has (ids s.profiles) uuid ≡ false → Step s (handle_add uuid s)
  edit :
      (s : Manager) (p : LlmProfile) → has (ids s.profiles) p.id ≡ true → Step s (handle_edit p s)
  fill :
      (s : Manager) (form : LlmProfile)
      → form.id ≡ s.edit_form.id
      → Step s (record s { edit_form = form })
  save :
      (s : Manager)
      → (s.is_adding ≡ true) ⊎ ((i : String) × (s.editing_id ≡ some i))
      → Step s (handle_save s)
  remove :
      (s : Manager) (confirmed : Bool) (id : String)
      → is_text s.editing_id id ≡ false
      → Step s (handle_delete confirmed id s)
  toggle :
      (s : Manager) (id : String) → has (ids s.profiles) id ≡ true → Step s (toggle_active id s)
  reveal : (s : Manager) (id : String) → Step s (toggle_token_visibility id s)
  cancel : (s : Manager) → Step s (handle_cancel s)

-- The states that actions lead to.
pub data Reach (s : Manager) : Manager → Type 0 where
  here : Reach s s
  next : {t u : Manager} → Reach s t → Step t u → Reach s u

-- Saving the form of a new profile.
added-IsValid :
    (ps : List LlmProfile) (f : LlmProfile) (active : Bool)
    → f.is_active ≡ active
    → Distinct (ids ps)
    → OneActive ps
    → has (ids ps) f.id ≡ false
    → let saved =
        if active
        then map (activate (some f.id)) (ps ++ (f ∷ []))
        else ensure_active (ps ++ (f ∷ [])) in
      Distinct (ids saved) × OneActive saved
unfolding has
added-IsValid ps f true e d one fresh =
    let apart : Distinct (ids (ps ++ (f ∷ []))) =
      rw (ids-append ps f) (Distinct-append (ids ps) f.id d fresh) in
    let there : has (ids (ps ++ (f ∷ []))) f.id ≡ true =
      rw (ids-append ps f, has-append (ids ps) (f.id ∷ []) f.id, fresh, eq_refl f.id) refl in
    (
      rw (ids-activate (some f.id) (ps ++ (f ∷ []))) apart,
      inr (active_count-activate (ps ++ (f ∷ [])) f.id apart there),
    )
added-IsValid ps f false e d one fresh = (
  rw (ids-ensure_active (ps ++ (f ∷ [])), ids-append ps f) (Distinct-append (ids ps) f.id d fresh),
  ensure_active-OneActive (ps ++ (f ∷ []))
      (rw (active_count-append ps f e) (active_count-le_one ps one)),
)

-- Saving the form of the profile under edit.
edited-IsValid :
    (ps : List LlmProfile) (f : LlmProfile) (i : String) (active : Bool)
    → f.is_active ≡ active
    → Distinct (ids ps)
    → OneActive ps
    → f.id ≡ i
    → has (ids ps) i ≡ true
    → let replaced = map (replace_edited (some i) f) ps in
      let saved = if active then map (activate (some i)) replaced else ensure_active replaced in
      Distinct (ids saved) × OneActive saved
edited-IsValid ps f i true e d one same there =
    let replaced = map (replace_edited (some i) f) ps in
    (
      rw (ids-activate (some i) replaced, ids-replace_edited i f ps same) d,
      inr (
          active_count-activate replaced i (rw (ids-replace_edited i f ps same) d)
            (rw (ids-replace_edited i f ps same) there)),
    )
edited-IsValid ps f i false e d one same there =
    let replaced = map (replace_edited (some i) f) ps in
    let fewer = active_count-replace_edited-le i f ps e in
    let few = active_count-le_one ps one in
    (
      rw (ids-ensure_active replaced, ids-replace_edited i f ps same) d,
      ensure_active-OneActive replaced (omega (arith, fewer, few)),
    )

saved_profiles-IsValid :
    (s : Manager) (adding : Bool) (editing : Option String)
    → s.is_adding ≡ adding
    → s.editing_id ≡ editing
    → Distinct (ids s.profiles)
    → OneActive s.profiles
    → IsForm adding editing s
    → (adding ≡ true) ⊎ ((i : String) × (editing ≡ some i))
    → Distinct (ids (saved_profiles s)) × OneActive (saved_profiles s)
unfolding saved_profiles with_form
saved_profiles-IsValid s true editing a e d one (fresh, n) h =
    rw a (added-IsValid s.profiles s.edit_form s.edit_form.is_active refl d one fresh)
saved_profiles-IsValid s false (some i) a e d one (same, there) h =
    rw (a, e) (edited-IsValid s.profiles s.edit_form i s.edit_form.is_active refl d one same there)
saved_profiles-IsValid s false none a e d one form (inl h) = cc
saved_profiles-IsValid s false none a e d one form (inr (i, h)) = cc

handle_save-IsValid :
    (s : Manager)
    → IsValid s
    → (s.is_adding ≡ true) ⊎ ((i : String) × (s.editing_id ≡ some i))
    → IsValid (handle_save s)
unfolding handle_save
handle_save-IsValid s v h =
    elim (Bool-cases (not (truthy s.edit_form.name) || not (truthy s.edit_form.model))) [
      | inl e ↦ rw e v
      | inr e ↦
          let saved = saved_profiles-IsValid s s.is_adding s.editing_id refl refl v.0 v.1 v.2 h in
          rw e (saved.0, saved.1, tt)
    ]

-- The form after the list lost a profile that it is not for.
deleted-IsForm :
    (s t : Manager) (adding : Bool) (editing : Option String) (id : String)
    → t.edit_form ≡ s.edit_form
    → ids t.profiles ≡ ids (filter (λ (p : LlmProfile). not (p.id == id)) s.profiles)
    → is_text editing id ≡ false
    → IsForm adding editing s
    → IsForm adding editing t
deleted-IsForm s t true editing id e same apart (fresh, n) = (
  rw (same, e) (has-filter (λ (p : LlmProfile). not (p.id == id)) s.profiles s.edit_form.id fresh),
  n,
)
deleted-IsForm s t false none id e same apart form = tt
deleted-IsForm s t false (some i) id e same apart (form, there) = (
  rw e form,
  rw (same, has-deleted s.profiles id i (ground (arith, eq_iff id i, eq_iff i id))) there,
)

handle_delete-IsValid :
    (s : Manager) (confirmed : Bool) (id : String)
    → is_text s.editing_id id ≡ false
    → IsValid s
    → IsValid (handle_delete confirmed id s)
unfolding handle_delete
handle_delete-IsValid s false id apart v = v
handle_delete-IsValid s true id apart v =
    let keep : LlmProfile → Bool = λ p. not (p.id == id) in
    let kept = filter keep s.profiles in
    let fewer = active_count-filter-le keep s.profiles in
    let few = active_count-le_one s.profiles v.1 in
    (
      rw (ids-ensure_active kept) (filter-Distinct keep s.profiles v.0),
      ensure_active-OneActive kept (omega (arith, fewer, few)),
      deleted-IsForm s (record s { profiles = ensure_active kept }) s.is_adding s.editing_id id refl
          (ids-ensure_active kept) apart v.2,
    )

-- The form where the ids and its own id stay.
same-IsForm :
    (s t : Manager) (adding : Bool) (editing : Option String)
    → t.edit_form.id ≡ s.edit_form.id
    → ids t.profiles ≡ ids s.profiles
    → IsForm adding editing s
    → IsForm adding editing t
same-IsForm s t true editing e same (fresh, n) = (rw (same, e) fresh, n)
same-IsForm s t false none e same form = tt
same-IsForm s t false (some i) e same (form, there) = (rw e form, rw same there)

pub Step-IsValid : {s t : Manager} → Step s t → IsValid s → IsValid t
unfolding handle_add handle_edit toggle_active toggle_token_visibility handle_cancel
Step-IsValid (add s uuid fresh) v = (v.0, v.1, (fresh, refl))
Step-IsValid (edit s p there) v = (v.0, v.1, (refl, there))
Step-IsValid (fill s form e) v =
    (v.0, v.1, same-IsForm s (record s { edit_form = form }) s.is_adding s.editing_id e refl v.2)
Step-IsValid (save s h) v = handle_save-IsValid s v h
Step-IsValid (remove s confirmed id apart) v = handle_delete-IsValid s confirmed id apart v
Step-IsValid (toggle s id there) v =
    let same = ids-activate (some id) s.profiles in
    (
      rw same v.0,
      inr (active_count-activate s.profiles id v.0 there),
      same-IsForm s (record s { profiles = map (activate (some id)) s.profiles }) s.is_adding
          s.editing_id refl same v.2,
    )
Step-IsValid (reveal s id) v =
    (v.0, v.1, same-IsForm s (toggle_token_visibility id s) s.is_adding s.editing_id refl refl v.2)
Step-IsValid (cancel s) v = (v.0, v.1, tt)

-- From a list of profiles with different ids of which one is active, if there is any, every
-- sequence of the user's actions leads to such a list, where new ids are fresh and no profile is
-- deleted while it is being edited; the form stays one for a new id or for a listed profile.
pub Reach-IsValid : {s t : Manager} → IsValid s → Reach s t → IsValid t
Reach-IsValid v here = v
Reach-IsValid v (next r step) = Step-IsValid step (Reach-IsValid v r)
