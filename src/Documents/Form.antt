-- ===== src/Documents/Form.antt =====
-- frontend/src/components/documents/DocumentForm.tsx and the data that the dialogs of
-- DocumentModals.tsx start it with.
use cogni_cash.Base.{String, Bool, Option, none, some, if◌then◌else◌, truthy, text_or}
use cogni_cash.Base.Int.{pos, eq_ℤ}
use cogni_cash.Base.Collections.{get}
use cogni_cash.Api.Request.{Value, undefined, null, text, flag, number}
use cogni_cash.Documents.{Document, DocumentType, other, Overrides, no_overrides, upload_call}
use cogni_cash.Api.Services.Document.{DocumentCall}

pub record DocumentForm : Type 0 where
  pub file_name : String
  pub type : DocumentType
  pub date : String
  pub file : Option String

abbrev type_or_other : Option DocumentType → DocumentType
type_or_other none = other
type_or_other (some type) = type

unfoldable pub initial_form : Overrides → DocumentForm
initial_form data_in = record {
  file_name = text_or data_in.file_name "";
  type = type_or_other data_in.type;
  date = text_or data_in.document_date "";
  file = none;
}

-- `v || ''`, as a text; `to_text` is `String` of a value that is no text.
abbrev value_or_empty : (Value → String) → Value → String
value_or_empty to_text undefined = ""
value_or_empty to_text null = ""
value_or_empty to_text (text s) = s
value_or_empty to_text (flag b) = if b then to_text (flag b) else ""
value_or_empty to_text (number n) = if eq_ℤ n (pos 0) then "" else to_text (number n)
value_or_empty to_text v = to_text v

abbrev date_of : (Value → String) → Option Value → String
date_of to_text none = ""
date_of to_text (some v) = value_or_empty to_text v

-- What the dialogs for a document start the form with.
unfoldable pub initial_data : (Value → String) → Document → Overrides
initial_data to_text document = record {
  file_name = some document.file_name;
  type = some document.type;
  document_date = some (date_of to_text (get document.metadata "date"));
  file = none;
}

-- The dialog of an import starts it with the name of the file, if there is one, and imports nothing
-- without one.
unfoldable pub import_data : Option String → Overrides
import_data none = no_overrides
import_data (some name) = record no_overrides { file_name = some name }

unfoldable pub handle_form_submit : Option String → Overrides → Bool → Option DocumentCall
handle_form_submit none data_in use_ai = none
handle_form_submit (some file) data_in use_ai = some (upload_call file data_in use_ai)

unfoldable pub handle_submit : DocumentForm → Overrides
handle_submit s = record {
  file_name = some s.file_name;
  type = some s.type;
  document_date = if truthy s.date then some s.date else none;
  file = s.file;
}
