-- ===== src/Documents.antt =====
-- The documents of the user: frontend/src/api/types/document.ts, the page of
-- frontend/src/pages/DocumentVaultPage.tsx and the form of frontend/src/components/documents.
pub mod Form
pub mod Urls
mod Tests
use cogni_cash.Base.{
  String, ◌==◌, Bool, true, false, not, ◌||◌, Option, none, some, List, [], ◌∷◌, if◌then◌else◌,
  is_text,
}
use cogni_cash.Base.Collections.{JsSet, delete}
use cogni_cash.Api.Request.{Value}
use cogni_cash.Api.Services.Document.{
  DocumentCall, DocumentUpdatePayload, list, upload, update, delete_document, get_preview,
}

-- `'tax_certificate' | 'receipt' | 'contract' | 'other'`
pub data DocumentType : Type 0 where
  tax_certificate receipt contract other : DocumentType

abbrev pub type_text : DocumentType → String
type_text tax_certificate = "tax_certificate"
type_text receipt = "receipt"
type_text contract = "contract"
type_text other = "other"

pub record Document : Type 0 where
  pub id : String
  pub user_id : String
  pub type : DocumentType
  pub file_name : String
  pub content_hash : String
  pub mime_type : String
  pub metadata : List (String × Value)
  pub created_at : String
  pub document_date : Option String

pub record PreviewInfo : Type 0 where
  pub url : String
  pub mime_type : String

-- The page's state, with the object URLs that the browser keeps alive. `selected_type` is none for
-- all types.
pub record Page : Type 0 where
  pub search_term : String
  pub selected_type : Option DocumentType
  pub use_ai : Bool
  pub is_import_modal_open : Bool
  pub editing_doc : Option Document
  pub previewing_doc : Option Document
  pub preview_info : Option PreviewInfo
  pub is_preview_loading : Option String
  pub live_urls : JsSet

abbrev pub initial_page : Page
initial_page = record {
  search_term = "";
  selected_type = none;
  use_ai = true;
  is_import_modal_open = false;
  editing_doc = none;
  previewing_doc = none;
  preview_info = none;
  is_preview_loading = none;
  live_urls = [];
}

abbrev type_texts : Option DocumentType → Option String
type_texts none = none
type_texts (some type) = some (type_text type)

unfoldable pub list_call : Page → DocumentCall
list_call s = list (type_texts s.selected_type) (some s.search_term)

-- What a form gives to a mutation; a file is known by its name.
pub record Overrides : Type 0 where
  pub file_name : Option String
  pub type : Option DocumentType
  pub document_date : Option String
  pub file : Option String

abbrev pub no_overrides : Overrides
no_overrides = record { file_name = none; type = none; document_date = none; file = none }

unfoldable pub upload_call : String → Overrides → Bool → DocumentCall
upload_call file overrides use_ai =
    upload file (type_texts overrides.type) (some (not use_ai)) overrides.document_date
      overrides.file_name

-- `data.document_date || undefined`
abbrev pub or_undefined : Option String → Option String
or_undefined none = none
or_undefined (some s) = if s == "" then none else some s

unfoldable pub update_call : String → Overrides → DocumentCall
update_call id data_in = update id (record {
  file_name = data_in.file_name;
  type = type_texts data_in.type;
  document_date = or_undefined data_in.document_date;
  metadata = none;
  file = data_in.file;
})

-- A click on the button that previews, which is disabled while that document is loading.
unfoldable pub handle_preview : Document → Page → Option DocumentCall × Page
handle_preview doc s =
    if is_text s.is_preview_loading doc.id
    then (none, s)
    else (some (get_preview doc.id), record s { is_preview_loading = some doc.id })

-- The request of a preview ended with an object URL, which is then alive, or it failed.
unfoldable pub preview_arrived : Document → PreviewInfo → Page → Page
preview_arrived doc info s = record s {
  preview_info = some info;
  previewing_doc = some doc;
  is_preview_loading = none;
  live_urls = info.url ∷ s.live_urls;
}

unfoldable pub preview_failed : Page → Page
preview_failed s = record s { is_preview_loading = none }

abbrev pub revoked : Option PreviewInfo → JsSet → JsSet
revoked none urls = urls
revoked (some info) urls = delete info.url urls

unfoldable pub close_preview : Page → Page
close_preview s = record s {
  preview_info = none;
  previewing_doc = none;
  live_urls = revoked s.preview_info s.live_urls;
}

unfoldable pub upload_on_success : Page → Page
upload_on_success s = record s { is_import_modal_open = false }

unfoldable pub update_on_success : Page → Page
unfolding close_preview
update_on_success s = close_preview (record s { editing_doc = none; previewing_doc = none })

-- The first of the chosen files is uploaded.
unfoldable pub handle_files : List String → Page → Option DocumentCall
unfolding upload_call
handle_files [] s = none
handle_files (file ∷ files) s = some (upload_call file no_overrides s.use_ai)

-- With the answer to the question.
unfoldable pub handle_delete : Bool → String → Option DocumentCall
handle_delete confirmed id = if confirmed then some (delete_document id) else none
