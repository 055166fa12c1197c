-- ===== src/Documents/Tests.antt =====
-- The theorem on documents at a concrete run.
use cogni_cash.Base.{◌+◌, ◌≡◌, refl, false, none, []}
use cogni_cash.Base.Collections.{has}
use cogni_cash.Documents.{
  Document, receipt, PreviewInfo, Page, initial_page, preview_arrived, close_preview,
}
use cogni_cash.Documents.Urls.{Run, start, arrive, close, count_of, IsCounted, Run-IsCounted}

abbrev ticket : Document
ticket = record {
  id = "d1";
  user_id = "u1";
  type = receipt;
  file_name = "ticket.pdf";
  content_hash = "h1";
  mime_type = "application/pdf";
  metadata = [];
  created_at = "2024-01-01";
  document_date = none;
}

abbrev first_info : PreviewInfo
first_info = record { url = "blob:1"; mime_type = "application/pdf" }

abbrev second_info : PreviewInfo
second_info = record { url = "blob:2"; mime_type = "application/pdf" }

abbrev first_shown : Page
first_shown = preview_arrived ticket first_info initial_page

second_is_new : has first_shown.live_urls second_info.url ≡ false
unfolding preview_arrived has
second_is_new = refl

first_is_new : has initial_page.live_urls first_info.url ≡ false
unfolding has
first_is_new = refl

-- Two previews, one after the other.
abbrev two_previews :
    Run
      (count_of first_shown.preview_info + (count_of initial_page.preview_info + 0))
      initial_page
      (close_preview (preview_arrived ticket second_info first_shown))
two_previews = close (
    arrive ticket second_info (arrive ticket first_info (start initial_page) first_is_new)
      second_is_new)

Run-IsCounted_example :
    IsCounted
      (count_of first_shown.preview_info + (count_of initial_page.preview_info + 0))
      (close_preview (preview_arrived ticket second_info first_shown))
Run-IsCounted_example = Run-IsCounted two_previews (tt, tt, refl)
