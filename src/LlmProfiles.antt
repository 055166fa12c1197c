-- ===== src/LlmProfiles.antt =====
-- frontend/src/components/settings/LLMProfileManager.tsx: the list of LLM profiles, of which one is
-- meant to be active, with the form that adds and edits them. The parent keeps the list and takes
-- every list given to `onChange`.
pub mod Active
pub mod Steps
pub mod Tokens
mod Tests
use cogni_cash.Base.{
  String, ◌==◌, Bool, true, false, not, ◌&&◌, ◌||◌, Option, none, some, List, [], ◌∷◌, ◌++◌, map,
  if◌then◌else◌, truthy, is_text, filter, all, length, ltb, nat_eq,
}
use cogni_cash.Base.Collections.{get, put}

-- `'gemini' | 'ollama' | 'openai'`
pub data LlmType : Type 0 where
  gemini ollama openai : LlmType

pub record LlmProfile : Type 0 where
  pub id : String
  pub name : String
  pub type : LlmType
  pub url : String
  pub token : String
  pub model : String
  pub is_active : Bool

abbrev pub masked_token : String
masked_token = "********"

-- The parent's list, and the component's own state.
pub record Manager : Type 0 where
  pub profiles : List LlmProfile
  pub is_adding : Bool
  pub editing_id : Option String
  pub show_token : List (String × Bool)
  pub edit_form : LlmProfile

-- The form of the first render.
abbrev pub initial_form : LlmProfile
initial_form = record {
  id = "";
  name = "";
  type = openai;
  url = "";
  token = "";
  model = "";
  is_active = true;
}

-- With a fresh identifier from `crypto.randomUUID()`.
unfoldable pub handle_add : String → Manager → Manager
handle_add uuid s = record s {
  edit_form = record {
    id = uuid;
    name = "";
    type = openai;
    url = "";
    token = "";
    model = "";
    is_active = nat_eq (length s.profiles) 0;
  };
  is_adding = true;
  editing_id = none;
}

unfoldable pub handle_edit : LlmProfile → Manager → Manager
handle_edit profile s = record s {
  edit_form = record profile { token = masked_token };
  editing_id = some profile.id;
  is_adding = false;
}

-- The edited profile is replaced, where a token left masked stays what it was.
unfoldable pub replace_edited : Option String → LlmProfile → LlmProfile → LlmProfile
replace_edited editing_id final_form p =
    if is_text editing_id p.id
    then record final_form {
      token = if final_form.token == masked_token then p.token else final_form.token;
    }
    else p

-- The profile with this id becomes active, every other inactive.
unfoldable pub activate : Option String → LlmProfile → LlmProfile
activate id p = record p { is_active = is_text id p.id }

abbrev pub activate_first : List LlmProfile → List LlmProfile
activate_first [] = []
activate_first (p ∷ ps) = record p { is_active = true } ∷ ps

-- If no profile of the list is active, the first one becomes active.
unfoldable pub ensure_active : List LlmProfile → List LlmProfile
ensure_active ps =
    if all (λ (p : LlmProfile). not p.is_active) ps && ltb 0 (length ps)
    then activate_first ps
    else ps

-- The list after the form was added, or took the place of the edited profile.
unfoldable pub with_form : Manager → List LlmProfile
unfolding replace_edited
with_form s =
    if s.is_adding
    then s.profiles ++ (s.edit_form ∷ [])
    else map (replace_edited s.editing_id s.edit_form) s.profiles

unfoldable pub saved_profiles : Manager → List LlmProfile
unfolding with_form activate ensure_active
saved_profiles s =
    let saved_id = if s.is_adding then some s.edit_form.id else s.editing_id in
    if s.edit_form.is_active
    then map (activate saved_id) (with_form s)
    else ensure_active (with_form s)

-- A form without a name or a model is not saved.
unfoldable pub handle_save : Manager → Manager
unfolding saved_profiles
handle_save s =
    if not (truthy s.edit_form.name) || not (truthy s.edit_form.model)
    then s
    else record s { profiles = saved_profiles s; is_adding = false; editing_id = none }

-- With the user's answer to the question whether to delete.
unfoldable pub handle_delete : Bool → String → Manager → Manager
unfolding ensure_active
handle_delete confirmed id s =
    if confirmed
    then record s {
      profiles = ensure_active (filter (λ (p : LlmProfile). not (p.id == id)) s.profiles);
    }
    else s

unfoldable pub toggle_active : String → Manager → Manager
unfolding activate
toggle_active id s = record s { profiles = map (activate (some id)) s.profiles }

abbrev pub is_shown : Option Bool → Bool
is_shown none = false
is_shown (some b) = b

unfoldable pub toggle_token_visibility : String → Manager → Manager
unfolding get put
toggle_token_visibility id s = record s {
  show_token = put id (not (is_shown (get s.show_token id))) s.show_token;
}

-- The button that closes the form.
unfoldable pub handle_cancel : Manager → Manager
handle_cancel s = record s { is_adding = false; editing_id = none }
