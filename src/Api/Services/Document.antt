-- ===== src/Api/Services/Document.antt =====
-- frontend/src/api/services/documentService.ts and frontend/src/api/types/document.ts
use Prim.Native.String
use cogni_cash.Base.{String, Bool, false, Option, none, some, [], ◌∷◌, ◌++◌}
use cogni_cash.Api.Request.{
  Request, Value, Fields, Part, undefined, object, entry, post, put, delete, empty, json, form,
  send, fetch, fetch_blob, optional, default, append_if, bool_text,
}

-- `type` and `document_date` are texts on the wire; `file` is the name of a file to upload again.
pub record DocumentUpdatePayload : Type 0 where
  pub file_name : Option String
  pub type : Option String
  pub document_date : Option String
  pub metadata : Option Fields
  pub file : Option String

-- The year of a tax summary is given by its digits.
pub data DocumentCall : Type 0 where
  list : Option String → Option String → DocumentCall
  upload : String → Option String → Option Bool → Option String → Option String → DocumentCall
  get_detail : String → DocumentCall
  update : String → DocumentUpdatePayload → DocumentCall
  delete_document : String → DocumentCall
  get_preview : String → DocumentCall
  get_tax_summary : String → DocumentCall

abbrev metadata_value : Option Fields → Value
metadata_value none = undefined
metadata_value (some m) = object m

-- With a file the fields are sent as a form, without the metadata; else as they are.
abbrev update_body : DocumentUpdatePayload → Request → Request
update_body data_in r = elim data_in.file [
  | none ↦ record r {
    body = json (
        ("file_name", optional data_in.file_name)
        ∷ ("type", optional data_in.type)
        ∷ ("document_date", optional data_in.document_date)
        ∷ ("metadata", metadata_value data_in.metadata)
        ∷ []);
  }
  | some name ↦ record r {
    body = form (
        ("file", Part.file name)
        ∷ (append_if "file_name" data_in.file_name []
            ++ append_if "document_type" data_in.type []
            ++ append_if "document_date" data_in.document_date []));
  }
]

unfoldable pub document_request : DocumentCall → Request
document_request (list type search) =
    fetch ("documents" ∷ []) (("type", optional type) ∷ ("search", optional search) ∷ [])
document_request (upload name type skip_ai date file_name) =
    send post ("documents" ∷ "upload" ∷ []) (
      form (
        ("file", Part.file name)
        ∷ ("document_type", entry (default "other" type))
        ∷ ("skip_ai", entry (bool_text (default false skip_ai)))
        ∷ (append_if "document_date" date [] ++ append_if "file_name" file_name [])))
document_request (get_detail id) = fetch ("documents" ∷ id ∷ []) []
document_request (update id data_in) = update_body data_in (send put ("documents" ∷ id ∷ []) empty)
document_request (delete_document id) = send delete ("documents" ∷ id ∷ []) empty
document_request (get_preview id) = fetch_blob ("documents" ∷ id ∷ "download" ∷ [])
document_request (get_tax_summary year) = fetch ("documents" ∷ "tax-summary" ∷ year ∷ []) []

unfoldable pub get_download_url : String → String
get_download_url id = String.◌++◌ "/api/v1/documents/" (String.◌++◌ id "/download/")
