-- ===== src/Subscriptions/Params.antt =====
-- What becomes of the parameters `enriched` and `cancel` of a subscription's page.
use cogni_cash.Base.{
  ◌≡◌, refl, Bool, true, false, none, List, [], ◌∷◌, if◌then◌else◌, is_text, Bool-cases, inl, inr,
  sym, ap, ◌∙◌,
}
use cogni_cash.Base.Collections.{get, remove, get-remove}
use cogni_cash.Transactions.Page.{Params}
use cogni_cash.Subscriptions.Detail.{
  Page, first_render, effect_body, rerender, opened, ten_seconds_later,
}

-- What may happen to the open page without an action of the user.
pub data Event : Type 0 where
  rendered waited : Event

abbrev pub after_event : Event → Page → Page
after_event rendered p = rerender p
after_event waited p = ten_seconds_later p

abbrev pub after_events : List Event → Page → Page
after_events [] p = p
after_events (e ∷ es) p = after_events es (after_event e p)

-- No timer runs, and the effect has nothing left to do.
abbrev IsSettled : Page → Type 0
IsSettled p = (p.badge_timer ≡ false) × (p.enrich_timer ≡ false) × (effect_body p ≡ p)

after_event_settled : (e : Event) (p : Page) → IsSettled p → after_event e p ≡ p
unfolding rerender ten_seconds_later
after_event_settled rendered p (a, b, c) =
    ap (λ t. effect_body (record p { badge_timer = t })) (sym a) ∙ c
after_event_settled waited p (a, b, c) = rw (a, b) refl

after_events_settled : (es : List Event) (p : Page) → IsSettled p → after_events es p ≡ p
after_events_settled [] p h = refl
after_events_settled (e ∷ es) p h = rw (after_event_settled e p h) (after_events_settled es p h)

module _ (params : Params) where
  abbrev enriched : Bool
  enriched = is_text (get params "enriched") "true"

  abbrev cancelling : Bool
  cancelling = is_text (get params "cancel") "true"

  -- The page once it is open.
  abbrev settled : Page
  settled =
      if enriched
      then record (first_render params) {
        search_params = remove "enriched" params;
        params_processed = true;
      }
      else if cancelling
      then record (first_render params) {
        previews_requested = 1;
        search_params = remove "cancel" params;
        params_processed = true;
      }
      else first_render params

  -- The page after the first effect.
  abbrev after_effect : Page
  after_effect =
      if enriched
      then record (first_render params) {
        badge_timer = true;
        search_params = remove "enriched" params;
        params_processed = true;
      }
      else if cancelling
      then record (first_render params) {
        previews_requested = 1;
        search_params = remove "cancel" params;
        params_processed = true;
      }
      else first_render params

  effect_body-first_render : effect_body (first_render params) ≡ after_effect
  unfolding effect_body first_render
  effect_body-first_render = refl

  rerender-after_effect : rerender after_effect ≡ settled
  unfolding rerender effect_body first_render
  rerender-after_effect = elim (Bool-cases enriched) [
    | inl e ↦ rw e refl
    | inr e ↦ elim (Bool-cases cancelling) [
      | inl c ↦ rw (e, c) refl
      | inr c ↦ rw (e, c) (rw (e, c) refl)
    ]
  ]

  opened_lem : opened params ≡ settled
  unfolding opened
  opened_lem = rw effect_body-first_render rerender-after_effect

  opened-IsSettled : IsSettled settled
  unfolding effect_body first_render
  opened-IsSettled = elim (Bool-cases enriched) [
    | inl e ↦ rw e (refl, refl, refl)
    | inr e ↦ elim (Bool-cases cancelling) [
      | inl c ↦ rw (e, c) (refl, refl, refl)
      | inr c ↦ rw (e, c) (refl, refl, rw (e, c) refl)
    ]
  ]

  always_settled : (es : List Event) → after_events es (opened params) ≡ settled
  always_settled es = rw opened_lem (after_events_settled es settled opened-IsSettled)

  -- On a subscription's page that is opened without "enriched", the letter is requested exactly
  -- once if the URL asked for it, and else never, however often the page renders and however long
  -- it stays open; the parameter that asked for it is removed.
  pub after_events-opened :
      (es : List Event)
      → enriched ≡ false
      → let p = after_events es (opened params) in
        (p.previews_requested ≡ (if cancelling then 1 else 0))
        × (get p.search_params "cancel" ≡ (if cancelling then none else get params "cancel"))
  unfolding first_render
  after_events-opened es e = rw (always_settled es) (elim (Bool-cases cancelling) [
    | inl c ↦ rw (e, c) (refl, get-remove "cancel" params "cancel")
    | inr c ↦ rw (e, c) (refl, refl)
  ])

  -- The badge that a page opened with "enriched" shows is never hidden by the passing of time,
  -- however often the page renders.
  pub show_enriched_badge-opened :
      (es : List Event)
      → enriched ≡ true
      → (after_events es (opened params)).show_enriched_badge ≡ true
  unfolding first_render
  show_enriched_badge-opened es e = rw (always_settled es) (rw e refl)
