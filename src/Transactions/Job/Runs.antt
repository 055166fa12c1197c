-- ===== src/Transactions/Job/Runs.antt =====
-- The lists are fetched again once for each run of the job that was seen to end.
use cogni_cash.Base.{
  ℕ, suc, ◌+◌, ◌≡◌, refl, Bool, true, false, not, ◌&&◌, Option, none, some, List, [], ◌∷◌,
  if◌then◌else◌, arith, Bool-cases, inl, inr,
}
use cogni_cash.Types.{JobState}
use cogni_cash.Transactions.Job.{Watch, observe, observe_all}

-- The known states, whether the job runs.
unfoldable pub running_states : List (Option JobState) → List Bool
running_states [] = []
running_states (none ∷ js) = running_states js
running_states (some j ∷ js) = j.is_running ∷ running_states js

-- How many times a sequence falls from true to false, and how it ends.
unfoldable pub falls : Bool → List Bool → ℕ
falls before [] = 0
falls before (now ∷ later) =
    let rest = falls now later in if before && not now then suc rest else rest

unfoldable pub last_or : Bool → List Bool → Bool
last_or b [] = b
last_or b (c ∷ cs) = last_or c cs

observe-refetches :
    (j : JobState) (w : Watch)
    → (observe (some j) w).refetches
      ≡ (if w.was_running && not j.is_running then suc w.refetches else w.refetches)
unfolding observe
observe-refetches j w = elim (Bool-cases j.is_running) [
  | inl e ↦ elim (Bool-cases w.was_running) [ inl f ↦ rw (e, f) refl | inr f ↦ rw (e, f) refl ]
  | inr e ↦ elim (Bool-cases w.was_running) [ inl f ↦ rw (e, f) refl | inr f ↦ rw (e, f) refl ]
]

observe-was_running : (j : JobState) (w : Watch) → (observe (some j) w).was_running ≡ j.is_running
unfolding observe
observe-was_running j w = elim (Bool-cases j.is_running) [
  | inl e ↦ rw e refl
  | inr e ↦ elim (Bool-cases w.was_running) [ inl f ↦ rw (e, f) refl | inr f ↦ rw (e, f) refl ]
]

observe-none : (w : Watch) → observe none w ≡ w
unfolding observe
observe-none w = refl

count_step :
    (fell : Bool) (n rest : ℕ)
    → (if fell then suc n else n) + rest ≡ n + (if fell then suc rest else rest)
count_step true n rest = omega arith
count_step false n rest = refl

-- After any sequence of polled statuses the lists were fetched again once for each fall of
-- is_running from true to false, where statuses that are still unknown count for nothing, and
-- wasRunning says whether the last known status was running.
pub observe_all_lem :
    (js : List (Option JobState)) (w : Watch)
    → ((observe_all js w).refetches ≡ w.refetches + falls w.was_running (running_states js))
      × ((observe_all js w).was_running ≡ last_or w.was_running (running_states js))
unfolding observe_all falls running_states last_or
observe_all_lem [] w = (omega arith, refl)
observe_all_lem (none ∷ js) w = rw (observe_all, observe-none w) (observe_all_lem js w)
observe_all_lem (some j ∷ js) w =
    let later = observe_all_lem js (observe (some j) w) in
    rw (later.0, later.1, observe-refetches j w, observe-was_running j w)
      (
        count_step (w.was_running && not j.is_running) w.refetches
            (falls j.is_running (running_states js)),
        refl,
      )
