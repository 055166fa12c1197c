-- ===== src/Sharing/Participants.antt =====
-- How a dialog divides the users.
use cogni_cash.Base.{
  ◌+◌, String, ◌==◌, ◌≡◌, refl, Bool, false, not, List, [], ◌∷◌, length, filter, arith, eq_iff,
  eq_refl, Bool-cases, inl, inr,
}
use cogni_cash.Base.Collections.{JsSet, has}
use cogni_cash.Types.{User}
use cogni_cash.Sharing.{available_users, active_participants}

abbrev pub is_other : String → User → Bool
is_other owner_id u = not (u.id == owner_id)

-- If the owner is not among those that it is shared with, each user but the owner is offered or
-- takes part, and none is both: of every kind of users the two lists have together as many as there
-- are.
pub available_users-active_participants :
    (p : User → Bool) (owner_id : String) (shared_user_ids : JsSet) (users : List User)
    → has shared_user_ids owner_id ≡ false
    → length (filter p (filter (is_other owner_id) users))
      ≡ length (filter p (available_users owner_id shared_user_ids users))
        + length (filter p (active_participants shared_user_ids users))
unfolding available_users active_participants
available_users-active_participants p owner_id shared_user_ids [] h = omega arith
available_users-active_participants p owner_id shared_user_ids (u ∷ users) h =
    let rest = available_users-active_participants p owner_id shared_user_ids users h in
    elim (Bool-cases (u.id == owner_id)) [
      | inl e ↦ rw ((eq_iff u.id owner_id).0 e, eq_refl owner_id, h) rest
      | inr e ↦ ground (arith, rest)
    ]

-- A user that takes part from now on is not offered any more, and nothing else changes.
pub available_users-shared :
    (owner_id user_id : String) (shared_user_ids : JsSet) (users : List User)
    → available_users owner_id (user_id ∷ shared_user_ids) users
      ≡ filter (is_other user_id) (available_users owner_id shared_user_ids users)
unfolding available_users has
available_users-shared owner_id user_id shared_user_ids [] = refl
available_users-shared owner_id user_id shared_user_ids (u ∷ users) = ground (
  arith,
  available_users-shared owner_id user_id shared_user_ids users,
  eq_iff u.id user_id,
  eq_iff user_id u.id,
)
