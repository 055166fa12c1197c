-- ===== src/Connections/Tests.antt =====
-- The theorem on connections at concrete parameters.
use cogni_cash.Base.{◌≡◌, refl, some, [], ◌∷◌}
use cogni_cash.Base.Collections.{get}
use cogni_cash.Api.Services.Bank.{finish_connection}
use cogni_cash.Connections.{opened}
use cogni_cash.Connections.Finishing.{after_renders, sent-opened}

sent-opened_example :
    (after_renders 1 (opened (("ref", "r1") ∷ ("code", "c1") ∷ []))).sent
    ≡ finish_connection "r1" (some "c1") ∷ finish_connection "r1" (some "c1") ∷ []
unfolding get
sent-opened_example = sent-opened (("ref", "r1") ∷ ("code", "c1") ∷ []) "r1" refl 1
