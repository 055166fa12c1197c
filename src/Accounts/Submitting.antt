-- ===== src/Accounts/Submitting.antt =====
-- What submitting the forms of accounts does on every branch.
use cogni_cash.Base.{
  String, ◌==◌, ◌≡◌, refl, Bool, true, false, not, ◌&&◌, ◌||◌, Option, none, some, truthy, text_or,
  arith, Bool-cases, inl, inr,
}
use cogni_cash.Types.{User}
use cogni_cash.Accounts.{Reply, fulfilled, rejected, other_error, message_or, is_fulfilled}
use cogni_cash.Accounts.Passwords.{ResetState, given, confirmed, handle_submit}
use cogni_cash.Accounts.Users
use cogni_cash.Accounts.Users.{Dialog, user_fields, open_edit_modal, open_create_modal}

abbrev pub is_sent : {A : Type 0} → Option A → Bool
is_sent none = false
is_sent (some a) = true

truthy_or : (o : Option String) (d : String) → truthy d ≡ true → truthy (text_or o d) ≡ true
truthy_or none d h = h
truthy_or (some s) d h = ground arith

-- Every failure has a message.
message_truthy :
    (fallback : String) (r : Reply)
    → truthy fallback ≡ true
    → is_fulfilled r ≡ false
    → truthy (message_or fallback r) ≡ true
message_truthy fallback fulfilled h e = cc
message_truthy fallback (rejected message) h e = truthy_or message fallback h
message_truthy fallback other_error h e = h

-- The handler after its first test.
confirmed_lem :
    (o : Option String) (reply : Reply) (s : ResetState)
    → s.success ≡ false
    → ((confirmed o reply s).1.success ≡ (is_sent o && is_fulfilled reply))
      × (truthy (confirmed o reply s).1.error ≡ not (is_sent o && is_fulfilled reply))
      × ((confirmed o reply s).1.loading ≡ false)
      × (is_sent (confirmed o reply s).0 ≡ is_sent o)
confirmed_lem none reply s h = (h, refl, refl, refl)
confirmed_lem (some token) fulfilled s h = (refl, refl, refl, refl)
confirmed_lem (some token) (rejected message) s h =
    (h, truthy_or message "Failed to reset password." refl, refl, refl)
confirmed_lem (some token) other_error s h = (h, refl, refl, refl)

-- Submitting a new password, with a translated message that is not empty and from a state that has
-- no success and is not loading, succeeds exactly if the two texts agree, the link has a token and
-- the request is fulfilled; it shows a message exactly if it does not succeed, sends a request
-- exactly if the texts agree and there is a token, and never leaves the page loading.
pub handle_submit_lem :
    (mismatch : String) (token : Option String) (reply : Reply) (s : ResetState)
    → truthy mismatch ≡ true
    → s.success ≡ false
    → s.loading ≡ false
    → let agrees = s.new_password == s.confirm_password in
      let sent = agrees && is_sent (given token) in
      let after = handle_submit mismatch token reply s in
      (after.1.success ≡ (sent && is_fulfilled reply))
      × (truthy after.1.error ≡ not (sent && is_fulfilled reply))
      × (after.1.loading ≡ false)
      × (is_sent after.0 ≡ sent)
unfolding handle_submit
handle_submit_lem mismatch token reply s m h l =
    elim (Bool-cases (s.new_password == s.confirm_password)) [
      | inl e ↦ rw e (confirmed_lem (given token) reply s h)
      | inr e ↦ rw e (h, m, l, refl)
    ]

-- The call and the dialog after submitting.
call_or_refusal_lem :
    (o : Option User) (s : Dialog)
    → s.error_msg ≡ ""
    → (is_sent (Users.call_or_refusal o s).0 ≡ (is_sent o || truthy s.password))
      × (truthy (Users.call_or_refusal o s).1.error_msg
          ≡ not (is_sent (Users.call_or_refusal o s).0))
      × ((Users.call_or_refusal o s).1.is_modal_open ≡ s.is_modal_open)
call_or_refusal_lem (some user) s e = (refl, rw e refl, refl)
call_or_refusal_lem none s e = elim (Bool-cases (truthy s.password)) [
  | inl p ↦ rw p (refl, rw e refl, refl)
  | inr p ↦ rw p (refl, refl, refl)
]

settled_open :
    (common_error : String) (reply : Reply) (s : Dialog)
    → (Users.settled common_error reply s).is_modal_open
      ≡ (s.is_modal_open && not (is_fulfilled reply))
unfolding Users.settled Users.close_modal
settled_open common_error fulfilled s = ground arith
settled_open common_error (rejected message) s = ground arith
settled_open common_error other_error s = ground arith

-- A user is created with a password only; what was refused leaves the dialog open with a message, and
-- so does a request that failed.
pub settled-handle_submit :
    (common_error : String) (reply : Reply) (s : Dialog)
    → let after = Users.handle_submit s in
      let closed = Users.settled common_error reply after.1 in
      (is_sent after.0 ≡ (is_sent s.editing_user || truthy s.password))
      × (truthy after.1.error_msg ≡ not (is_sent after.0))
      × (closed.is_modal_open ≡ (s.is_modal_open && not (is_fulfilled reply)))
unfolding Users.handle_submit Users.settled Users.close_modal
settled-handle_submit common_error reply s =
    let submitted = record s { error_msg = "" } in
    let parts = call_or_refusal_lem s.editing_user submitted refl in
    (parts.0, parts.1, rw (settled_open common_error reply (Users.handle_submit s).1, parts.2) refl)
