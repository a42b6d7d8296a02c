-- ===== src/Documents/Tests.antt =====
-- The theorem on the queue of documents at one picture that no upload succeeds for.
use newport_ms.Base.{String, ◌≡◌, refl, Bool, true, false, none, [], ◌∷◌}
use newport_ms.Base.Maps.{lookup}
use newport_ms.Documents.{DocumentPendingRecord, DocumentRows, Upload, refused, do_flush}
use newport_ms.Documents.Laws.{is_stored, unsent_kept}

abbrev picture : DocumentPendingRecord
picture = record {
  doc_id = "p1";
  doc_type = "PHOTO";
  title_ar = "pump seal";
  original_name = "seal.jpg";
  mime_type = "image/jpeg";
  data_base64 = "aGVsbG8=";
  entity_type = none;
  doc_entity_id = none;
  category_code = none;
  doc_code = none;
  is_encrypted = false;
  size_bytes = 5;
  doc_attempts = 0;
  last_error_ar = none;
  queued_at = "2026-01-05T08:00:00Z";
  object_key = none;
}

abbrev pictures : DocumentRows
pictures = ("p1", picture) ∷ []

abbrev busy : Unit {0} → DocumentPendingRecord → Unit {0} × Upload
busy s rec = (s, refused "503")

abbrev same_text : String → String → Bool
same_text s t = false

unsent_kept_example :
    is_stored "p1" (do_flush busy same_text same_text 100 true 4 tt pictures).rows ≡ true
unfolding lookup
unsent_kept_example =
    unsent_kept busy same_text same_text 100 "p1" (λ s rec. refl) true 4 tt pictures refl
