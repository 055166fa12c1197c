-- ===== src/Connections/Finishing.antt =====
-- How often the page asks the backend to finish a connection.
use mathlib.Core.List.{append_assoc, append-nil}
use cogni_cash.Base.{ℕ, zero, suc, String, ◌≡◌, refl, some, List, [], ◌∷◌, ◌++◌, ◌∙◌, ap, sym}
use cogni_cash.Base.Collections.{get}
use cogni_cash.Transactions.Page.{Params}
use cogni_cash.Api.Services.Bank.{BankCall, finish_connection}
use cogni_cash.Connections.{
  Page, first_render, rerender, opened, reference, or_undefined, finished_with,
}

-- The page after that many further renders, while no request has succeeded.
abbrev pub after_renders : ℕ → Page → Page
after_renders zero p = p
after_renders (suc n) p = after_renders n (rerender p)

abbrev pub copies : ℕ → BankCall → List BankCall
copies zero call = []
copies (suc n) call = call ∷ copies n call

-- The request for the parameters of the URL.
abbrev pub finishing : Params → String → BankCall
finishing params req_id = finish_connection req_id (or_undefined (get params "code"))

module _ (params : Params) (req_id : String) (given : reference params ≡ some req_id) where
  sent-rerender :
      (p : Page)
      → p.search_params ≡ params
      → rerender p ≡ record p { sent = p.sent ++ (finishing params req_id ∷ []) }
  unfolding rerender
  sent-rerender p e =
      ap (λ q. finished_with (reference q) q p) e ∙ ap (λ o. finished_with o params p) given

  sent-after_renders :
      (n : ℕ) (p : Page)
      → p.search_params ≡ params
      → (after_renders n p).sent ≡ p.sent ++ copies n (finishing params req_id)
  sent-after_renders zero p e = sym (append-nil p.sent)
  sent-after_renders (suc n) p e =
      let call = finishing params req_id in
      let next = record p { sent = p.sent ++ (call ∷ []) } in
      ap (λ (q : Page). (after_renders n q).sent) (sent-rerender p e)
      ∙ sent-after_renders n next e
      ∙ append_assoc p.sent (call ∷ []) (copies n call)

  -- A page that the bank opened with a reference asks the backend to finish the connection once
  -- more with every render until a request has succeeded, each time with the same reference and
  -- code.
  pub sent-opened :
      (n : ℕ) → (after_renders n (opened params)).sent ≡ copies (suc n) (finishing params req_id)
  unfolding opened first_render
  sent-opened n = sent-after_renders (suc n) (first_render params) refl
