-- ===== src/Api/Services/Payslip.antt =====
-- frontend/src/api/services/payslipService.ts
use cogni_cash.Base.{
  String, ◌==◌, Bool, false, Option, none, some, List, [], ◌∷◌, ◌++◌, map, if◌then◌else◌, truthy,
}
use Prim.Native.String
use cogni_cash.Api.Request.{
  Request, Value, Part, undefined, text, file, entry, stringified, post, put, delete, empty, json,
  form, send, fetch, fetch_blob, or_undefined, default,
}

-- What an update sends: some fields, or a form.
pub data UpdateData : Type 0 where
  some_fields : List (String × Value) → UpdateData
  form_data : List (String × Part) → UpdateData

pub data PayslipCall : Type 0 where
  fetch_payslips : Option String → PayslipCall
  fetch_summary : PayslipCall
  fetch_payslip : String → PayslipCall
  get_preview_url : String → PayslipCall
  import_payslip : String → Option (List (String × Value)) → Option Bool → PayslipCall
  import_batch : List String → PayslipCall
  update : String → UpdateData → PayslipCall
  delete_payslip : String → PayslipCall
  download_file : String → PayslipCall

-- One form entry for each override that is not undefined.
abbrev part_of : Value → Part
part_of (text s) = entry s
part_of v = stringified v

abbrev override_parts : List (String × Value) → List (String × Part)
override_parts [] = []
override_parts ((key, undefined) ∷ rest) = override_parts rest
override_parts ((key, v) ∷ rest) = (key, part_of v) ∷ override_parts rest

abbrev update_body : UpdateData → Request → Request
update_body (some_fields fs) r = record r { body = json fs }
update_body (form_data parts) r = record r { body = form parts }

unfoldable pub payslip_request : PayslipCall → Request
payslip_request (fetch_payslips employer) =
    fetch ("payslips" ∷ []) (("employer", or_undefined employer) ∷ [])
payslip_request fetch_summary = fetch ("payslips" ∷ "summary" ∷ []) []
payslip_request (fetch_payslip id) = fetch ("payslips" ∷ id ∷ []) []
payslip_request (get_preview_url id) = fetch_blob ("payslips" ∷ id ∷ "download" ∷ [])
payslip_request (import_payslip name overrides use_ai) = send post ("payslips" ∷ "import" ∷ []) (
    form (
      ("file", file name)
      ∷ ((if default false use_ai then ("use_ai", entry "true") ∷ [] else [])
          ++ override_parts (default [] overrides))))
payslip_request (import_batch files) =
    send post ("payslips" ∷ "import" ∷ "batch" ∷ []) (form (map (λ f. ("files", file f)) files))
payslip_request (update id data_in) = update_body data_in (send put ("payslips" ∷ id ∷ []) empty)
payslip_request (delete_payslip id) = send delete ("payslips" ∷ id ∷ []) empty
payslip_request (download_file id) = fetch_blob ("payslips" ∷ id ∷ "download" ∷ [])

-- The name under which a downloaded payslip is saved, from its original name and the content type.
unfoldable pub download_name : String → String → Option String → String
download_name id original content_type =
    if truthy original
    then original
    else String.◌++◌ "payslip-" (String.◌++◌ id (extension content_type))
  where
    extension : Option String → String
    extension none = ".pdf"
    extension (some ct) =
        if ct == "image/jpeg" then ".jpg" else if ct == "image/png" then ".png" else ".pdf"
