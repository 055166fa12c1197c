-- ===== src/Payslips/Preview.antt =====
-- frontend/src/pages/PayslipsPage.tsx: the preview of a payslip's file beside its values.
use cogni_cash.Base.{String, ◌==◌, ◌≡◌, refl, Option, none, some, List, find}
use cogni_cash.Types.{Payslip}

-- A file is known by its object URL.
pub record Preview : Type 0 where
  pub previewing_payslip : Option Payslip
  pub preview_info : Option String
  pub is_preview_loading : Option String

abbrev found_or : Option Payslip → Option Payslip → Option Payslip
found_or old none = old
found_or old (some p) = some p

-- The payslip is set before its file is there.
unfoldable pub handle_preview : List Payslip → String → Preview → Preview
handle_preview payslips id s = record s {
  is_preview_loading = some id;
  previewing_payslip = found_or s.previewing_payslip (find (λ (p : Payslip). p.id == id) payslips);
}

unfoldable pub preview_arrived : String → Preview → Preview
preview_arrived url s = record s { preview_info = some url; is_preview_loading = none }

unfoldable pub preview_failed : Preview → Preview
preview_failed s = record s { is_preview_loading = none }

-- With the URL that is revoked.
unfoldable pub close_preview : Preview → Option String × Preview
close_preview s = (s.preview_info, record s { preview_info = none; previewing_payslip = none })

-- Two payslips are opened, one after the other, and the file of the second arrives first: the values of
-- the second are then shown beside the file of the first.
pub preview_arrived-preview_arrived :
    (payslips : List Payslip) (i j : String) (p : Payslip) (first_url second_url : String)
    → (s : Preview) → find (λ (q : Payslip). q.id == j) payslips ≡ some p
    → let after =
        preview_arrived first_url
          (preview_arrived second_url (handle_preview payslips j (handle_preview payslips i s))) in
      (after.previewing_payslip ≡ some p) × (after.preview_info ≡ some first_url)
unfolding preview_arrived handle_preview
preview_arrived-preview_arrived payslips i j p first_url second_url s h = (rw h refl, refl)
