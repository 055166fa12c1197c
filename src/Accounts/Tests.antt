-- ===== src/Accounts/Tests.antt =====
-- The theorems on accounts at concrete forms.
use cogni_cash.Base.{◌≡◌, refl, true, false, some, truthy}
use cogni_cash.Accounts.{rejected}
use cogni_cash.Accounts.Passwords.{ResetState, initial_state, handle_submit}
use cogni_cash.Accounts.Submitting.{is_sent, handle_submit_lem}

abbrev entered : ResetState
entered = record initial_state { new_password = "secret"; confirm_password = "secret" }

handle_submit_lem_example :
    ((handle_submit "Passwords differ" (some "t1") (rejected (some "expired")) entered).1.success
      ≡ false)
    × (truthy
          (handle_submit "Passwords differ" (some "t1") (rejected (some "expired")) entered).1.error
        ≡ true)
    × ((handle_submit "Passwords differ" (some "t1") (rejected (some "expired")) entered).1.loading
        ≡ false)
    × (is_sent (handle_submit "Passwords differ" (some "t1") (rejected (some "expired")) entered).0
        ≡ true)
handle_submit_lem_example =
    handle_submit_lem "Passwords differ" (some "t1") (rejected (some "expired")) entered refl refl
      refl
