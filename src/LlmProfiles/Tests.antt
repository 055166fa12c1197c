-- ===== src/LlmProfiles/Tests.antt =====
-- The theorems about LLM profiles at concrete states.
use cogni_cash.Base.{◌≡◌, refl, true, false, none, some, [], ◌∷◌, inr, map}
use cogni_cash.LlmProfiles.{
  LlmProfile, LlmType, Manager, initial_form, masked_token, handle_save, handle_edit, handle_delete,
  toggle_active,
}
use cogni_cash.Base.Collections.{has}
use cogni_cash.LlmProfiles.Active.{active_count}
use cogni_cash.LlmProfiles.Steps.{IsValid, Step, Reach, Reach-IsValid}
use cogni_cash.LlmProfiles.Tokens.{tokens-handle_save, active_count-handle_save}

abbrev local : LlmProfile
local = record {
  id = "p1";
  name = "Local";
  type = LlmType.ollama;
  url = "http://localhost:11434";
  token = "secret";
  model = "llama3";
  is_active = true;
}

abbrev remote : LlmProfile
remote = record local { id = "p2"; name = "Remote"; token = "key"; is_active = false }

abbrev idle : Manager
idle = record {
  profiles = local ∷ remote ∷ [];
  is_adding = false;
  editing_id = none;
  show_token = [];
  edit_form = initial_form;
}

-- The second profile under edit, switched on.
abbrev editing : Manager
editing = record idle {
  editing_id = some "p2";
  edit_form = record remote { token = masked_token; is_active = true };
}

Reach-IsValid_example : IsValid (handle_save (handle_edit remote (toggle_active "p2" idle)))
unfolding handle_edit toggle_active active_count has
Reach-IsValid_example =
    Reach-IsValid ((refl, (refl, tt)), inr refl, tt)
      (Reach.next
        (Reach.next (Reach.next Reach.here (Step.toggle idle "p2" refl))
          (Step.edit (toggle_active "p2" idle) remote refl))
        (Step.save (handle_edit remote (toggle_active "p2" idle)) (inr ("p2", refl))))

tokens-handle_save_example :
    map (λ (p : LlmProfile). p.token) (handle_save editing).profiles ≡ "secret" ∷ "key" ∷ []
tokens-handle_save_example = tokens-handle_save editing refl refl

active_count-handle_save_example :
    active_count (handle_save (handle_delete true "p2" editing)).profiles ≡ 0
active_count-handle_save_example = active_count-handle_save editing "p2" refl refl refl refl refl
