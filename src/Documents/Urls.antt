-- ===== src/Documents/Urls.antt =====
-- The object URLs that the page of documents keeps alive.
use cogni_cash.Base.{
  ℕ, ◌+◌, String, ◌==◌, ◌≡◌, refl, sym, true, false, Option, none, some, [], ◌∷◌, length, arith,
  Bool-cases, inl, inr, eq_iff, eq_refl, is_text,
}
use cogni_cash.Base.Collections.{JsSet, has, delete, Distinct, delete-Distinct}
use cogni_cash.Documents.{
  Document, PreviewInfo, Page, handle_preview, preview_arrived, preview_failed, close_preview,
  upload_on_success, update_on_success, revoked,
}

abbrev pub count_of : {A : Type 0} → Option A → ℕ
count_of none = 0
count_of (some a) = 1

-- One event of the page; a new object URL is none of those alive. The number is that of the previews
-- which have taken the place of a preview that was still shown.
pub data Run : ℕ → Page → Page → Type 0 where
  start : (s : Page) → Run 0 s s
  search :
      {n : ℕ} {s t : Page} (term : String) → Run n s t → Run n s (record t { search_term = term })
  edit :
      {n : ℕ} {s t : Page} (doc : Document)
      → Run n s t
      → Run n s (record t { editing_doc = some doc })
  preview : {n : ℕ} {s t : Page} (doc : Document) → Run n s t → Run n s (handle_preview doc t).1
  arrive :
      {n : ℕ} {s t : Page} (doc : Document) (info : PreviewInfo)
      → Run n s t
      → has t.live_urls info.url ≡ false
      → Run (count_of t.preview_info + n) s (preview_arrived doc info t)
  fail : {n : ℕ} {s t : Page} → Run n s t → Run n s (preview_failed t)
  close : {n : ℕ} {s t : Page} → Run n s t → Run n s (close_preview t)
  uploaded : {n : ℕ} {s t : Page} → Run n s t → Run n s (upload_on_success t)
  updated : {n : ℕ} {s t : Page} → Run n s t → Run n s (update_on_success t)

abbrev IsAlive : Option PreviewInfo → JsSet → Type 0
IsAlive none urls = Unit
IsAlive (some info) urls = has urls info.url ≡ true

-- No URL is alive twice, that of the shown preview is alive, and the others are as many as the
-- number.
abbrev pub IsCounted : ℕ → Page → Type 0
IsCounted n s =
    Distinct s.live_urls
    × IsAlive s.preview_info s.live_urls
    × (length s.live_urls ≡ count_of s.preview_info + n)

delete-absent : (x : String) (s : JsSet) → has s x ≡ false → delete x s ≡ s
unfolding has delete
delete-absent x [] h = refl
delete-absent x (y ∷ s) h = ground (arith, delete-absent x s)

length-delete :
    (x : String) (s : JsSet) → Distinct s → has s x ≡ true → length s ≡ 1 + length (delete x s)
unfolding has delete
length-delete x [] d h = cc
length-delete x (y ∷ s) (n, d) h = elim (Bool-cases (y == x)) [
  | inl e ↦ rw (e, delete-absent x s (rw (sym ((eq_iff y x).0 e)) n)) (omega arith)
  | inr e ↦ ground (arith, length-delete x s d)
]

revoked-Distinct :
    (o : Option PreviewInfo) (urls : JsSet) → Distinct urls → Distinct (revoked o urls)
revoked-Distinct none urls d = d
revoked-Distinct (some info) urls d = delete-Distinct info.url urls d

length-revoked :
    (n : ℕ) (o : Option PreviewInfo) (urls : JsSet)
    → Distinct urls
    → IsAlive o urls
    → length urls ≡ count_of o + n
    → length (revoked o urls) ≡ n
length-revoked n none urls d a h = omega (arith, h)
length-revoked n (some info) urls d a h = omega (arith, h, length-delete info.url urls d a)

closed-IsCounted : (n : ℕ) (s : Page) → IsCounted n s → IsCounted n (close_preview s)
unfolding close_preview
closed-IsCounted n s (d, a, h) = (
  revoked-Distinct s.preview_info s.live_urls d,
  tt,
  omega (arith, length-revoked n s.preview_info s.live_urls d a h),
)

handle_preview-IsCounted :
    (n : ℕ) (doc : Document) (s : Page) → IsCounted n s → IsCounted n (handle_preview doc s).1
unfolding handle_preview
handle_preview-IsCounted n doc s c = elim (Bool-cases (is_text s.is_preview_loading doc.id)) [
  | inl e ↦ rw e c
  | inr e ↦ rw e c
]

arrived-IsCounted :
    (n : ℕ) (doc : Document) (info : PreviewInfo) (s : Page)
    → has s.live_urls info.url ≡ false
    → IsCounted n s
    → IsCounted (count_of s.preview_info + n) (preview_arrived doc info s)
unfolding preview_arrived has
arrived-IsCounted n doc info s f (d, a, h) = ((f, d), rw (eq_refl info.url) refl, omega (arith, h))

-- However the page of documents is used from a page where this holds with the number 0, and if
-- each new object URL is none of those alive: no object URL is alive twice, that of the shown
-- preview is alive, and besides it there are exactly as many live URLs as previews have taken the
-- place of one that was still shown.
pub Run-IsCounted : {n : ℕ} {s t : Page} → Run n s t → IsCounted 0 s → IsCounted n t
unfolding preview_failed upload_on_success update_on_success
Run-IsCounted (start s) c = c
Run-IsCounted (search term r) c = Run-IsCounted r c
Run-IsCounted (edit doc r) c = Run-IsCounted r c
Run-IsCounted {n} (preview {t = t} doc r) c = handle_preview-IsCounted n doc t (Run-IsCounted r c)
Run-IsCounted (arrive {n} {t = t} doc info r f) c =
    arrived-IsCounted n doc info t f (Run-IsCounted r c)
Run-IsCounted (fail r) c = Run-IsCounted r c
Run-IsCounted {n} (close {t = t} r) c = closed-IsCounted n t (Run-IsCounted r c)
Run-IsCounted (uploaded r) c = Run-IsCounted r c
Run-IsCounted {n} (updated {t = t} r) c =
    closed-IsCounted n (record t { editing_doc = none; previewing_doc = none }) (Run-IsCounted r c)
