-- ===== src/Documents/Laws.antt =====
-- What a flush keeps of the store.
use newport_ms.Base.{
  ◌&&◌, ℕ, String, ◌≡◌, Bool, true, false, is_some, List, [], ◌∷◌, arith, str_eq, Bool-cases, inl,
  inr,
}
use newport_ms.Base.Maps.{lookup, lookup-set, lookup-delete}
use newport_ms.Documents.{
  DocumentPendingRecord, DocumentRows, Upload, sent, refused, Flush, save_pending, forget_pending,
  flush_one, flush_all, do_flush, after_upload, is_wrong_size,
}

abbrev pub was_sent : Upload → Bool
was_sent (sent k) = true
was_sent (refused error) = false

-- A document with the id is in the store.
abbrev pub is_stored : String → DocumentRows → Bool
is_stored k rows = is_some (lookup k rows)

stored-save :
    (k : String) (rec : DocumentPendingRecord) (rows : DocumentRows)
    → is_stored k rows ≡ true
    → is_stored k (save_pending rec rows) ≡ true
unfolding save_pending
stored-save k rec rows h = ground (arith, lookup-set k rec.doc_id rec rows)

stored-forget :
    (k id : String) (rows : DocumentRows)
    → str_eq id k ≡ false
    → is_stored k rows ≡ true
    → is_stored k (forget_pending id rows) ≡ true
unfolding forget_pending
stored-forget k id rows other h = ground (arith, lookup-delete k id rows)

module _ {Server : Type 0} (upload : Server → DocumentPendingRecord → Server × Upload)
    (same not_after : String → String → Bool) (max_bytes : ℕ) (k : String)
    (unsent : (s : Server) (rec : DocumentPendingRecord)
      → (was_sent (upload s rec).1 && str_eq rec.doc_id k) ≡ false) where
  after_upload-stored :
      (rec : DocumentPendingRecord) (f : Flush upload same not_after max_bytes) (s : Server)
      (u : Upload)
      → (was_sent u && str_eq rec.doc_id k) ≡ false
      → is_stored k f.rows ≡ true
      → is_stored k (after_upload upload same not_after max_bytes rec f (s, u)).rows ≡ true
  after_upload-stored rec f s (sent key) n h =
      stored-forget k rec.doc_id _ (ground arith) (stored-save k _ f.rows h)
  after_upload-stored rec f s (refused error) n h = stored-save k _ f.rows h

  flush_one-stored :
      (rec : DocumentPendingRecord) (f : Flush upload same not_after max_bytes)
      → is_stored k f.rows ≡ true
      → is_stored k (flush_one upload same not_after max_bytes rec f).rows ≡ true
  unfolding flush_one
  flush_one-stored rec f h = elim (Bool-cases (is_wrong_size upload same not_after max_bytes rec)) [
    | inl wrong ↦ rw wrong (stored-save k _ f.rows h)
    | inr right ↦ rw right (
        after_upload-stored rec f (upload f.flush_server rec).0 (upload f.flush_server rec).1
          (unsent f.flush_server rec) h)
  ]

  flush_all-stored :
      (recs : List DocumentPendingRecord) (f : Flush upload same not_after max_bytes)
      → is_stored k f.rows ≡ true
      → is_stored k (flush_all upload same not_after max_bytes recs f).rows ≡ true
  unfolding flush_all
  flush_all-stored [] f h = h
  flush_all-stored (rec ∷ recs) f h = flush_all-stored recs _ (flush_one-stored rec f h)

  -- A document that no upload succeeds for is in the store after a flush if it was before, whatever
  -- becomes of the others, and whether the device is on the net or not.
  pub unsent_kept :
      (is_online : Bool) (limit : ℕ) (server : Server) (rows : DocumentRows)
      → is_stored k rows ≡ true
      → is_stored k (do_flush upload same not_after max_bytes is_online limit server rows).rows
        ≡ true
  unfolding do_flush
  unsent_kept false limit server rows h = h
  unsent_kept true limit server rows h = flush_all-stored _ _ h
