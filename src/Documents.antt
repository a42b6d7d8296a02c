-- ===== src/Documents.antt =====
-- The device's queue of documents: packages/domain/src/documents.ts. Modelled are the records, the store
-- in memory and `doFlush`; the checks of a new document, which call a schema library, are not. How two
-- texts compare, the server and the text of a failed upload are parameters. The program's Arabic text
-- is given in English.
pub mod Laws
mod Tests
use Prim.Native.Char.{Char, code}
use newport_ms.Base.{
  ℕ, zero, suc, ◌+◌, ◌-◌, ◌*◌, ◌/◌, max, String, Bool, true, false, not, ◌&&◌, ◌||◌, Option, none,
  some, List, [], ◌∷◌, map, ◌==◌, ltb, str_eq, keep, take, length, if◌then◌else◌,
}
use newport_ms.Base.Maps.{set}
use newport_ms.Base.Maps
use newport_ms.Sync.Lines.{is_space}

-- What follows the first comma, if there is one.
abbrev past_comma : String → Option String
past_comma String.[] = none
past_comma (String.◌∷◌ c s) = let rest = past_comma s in if code c == 44 then some s else rest

abbrev or_whole : Option String → String → String
or_whole none s = s
or_whole (some t) s = t

-- `replace(/\s/g, '')`
abbrev without_spaces : String → String
without_spaces String.[] = String.[]
without_spaces (String.◌∷◌ c s) =
    let rest = without_spaces s in if is_space (code c) then rest else String.◌∷◌ c rest

abbrev text_length : String → ℕ
text_length String.[] = 0
text_length (String.◌∷◌ c s) = suc (text_length s)

-- How many of the last two characters are the padding `=`.
abbrev padding : String → ℕ
padding String.[] = 0
padding (String.◌∷◌ c String.[]) = if code c == 61 then 1 else 0
padding (String.◌∷◌ c (String.◌∷◌ d String.[])) =
    if code d == 61 then (if code c == 61 then 2 else 1) else 0
padding (String.◌∷◌ c (String.◌∷◌ d (String.◌∷◌ e s))) = padding (String.◌∷◌ d (String.◌∷◌ e s))

-- `base64ByteLength(dataBase64)`
unfoldable pub base64_byte_length : String → ℕ
unfolding is_space
base64_byte_length base64 =
    let body = without_spaces (or_whole (past_comma base64) base64) in
    ((text_length body * 3) / 4) - padding body

-- `DocumentPendingRecord`
pub record DocumentPendingRecord : Type 0 where
  pub doc_id : String
  pub doc_type : String
  pub title_ar : String
  pub original_name : String
  pub mime_type : String
  pub data_base64 : String
  pub entity_type : Option String
  pub doc_entity_id : Option String
  pub category_code : Option String
  pub doc_code : Option String
  pub is_encrypted : Bool
  pub size_bytes : ℕ
  pub doc_attempts : ℕ
  pub last_error_ar : Option String
  pub queued_at : String
  pub object_key : Option String

-- `InMemoryDocumentStore.rows`
abbrev pub DocumentRows : Type 0
DocumentRows = List (String × DocumentPendingRecord)

-- `listPending()`, `savePending(rec)` and `forgetPending(id)`
unfoldable pub list_pending : DocumentRows → List DocumentPendingRecord
list_pending rows = map (λ r. r.1) rows

unfoldable pub save_pending : DocumentPendingRecord → DocumentRows → DocumentRows
save_pending rec rows = set rec.doc_id rec rows

unfoldable pub forget_pending : String → DocumentRows → DocumentRows
forget_pending id rows = Maps.delete id rows

-- `DocumentFlushReport`
pub record DocumentFlushReport : Type 0 where
  pub attempted : ℕ
  pub uploaded : ℕ
  pub failed : ℕ
  pub deferred : ℕ
  pub skipped_offline : Bool

-- What `upload` gives back: a key that may be missing, or an exception with its text.
pub data Upload : Type 0 where
  sent : Option String → Upload
  refused : String → Upload

abbrev pub key_or_uploaded : Option String → String
key_or_uploaded none = "uploaded"
key_or_uploaded (some k) = k

-- `!r.objectKey`
abbrev pub is_unsent : DocumentPendingRecord → Bool
is_unsent r = no_key r.object_key
  where
    no_key : Option String → Bool
    no_key none = true
    no_key (some k) = str_eq k ""

abbrev prefix : ℕ → String → String
prefix zero s = String.[]
prefix (suc n) String.[] = String.[]
prefix (suc n) (String.◌∷◌ c s) = String.◌∷◌ c (prefix n s)

abbrev pub noted : Option String → DocumentPendingRecord → DocumentPendingRecord
noted error rec = record rec { doc_attempts = suc rec.doc_attempts; last_error_ar = error }

module _ {Server : Type 0} (upload : Server → DocumentPendingRecord → Server × Upload)
    (same not_after : String → String → Bool) (max_bytes : ℕ) where
  -- The server, the rows and the report of a flush.
  pub record Flush : Type 0 where
    pub flush_server : Server
    pub rows : DocumentRows
    pub flush_report : DocumentFlushReport

  abbrev pub count_failed : DocumentFlushReport → DocumentFlushReport
  count_failed r = record r { attempted = suc r.attempted; failed = suc r.failed }

  abbrev pub count_uploaded : DocumentFlushReport → DocumentFlushReport
  count_uploaded r = record r { attempted = suc r.attempted; uploaded = suc r.uploaded }

  abbrev pub after_upload : DocumentPendingRecord → Flush → Server × Upload → Flush
  after_upload rec f (server, sent k) = record {
    flush_server = server;
    rows =
        forget_pending rec.doc_id
          (save_pending (record (noted none rec) { object_key = some (key_or_uploaded k) }) f.rows);
    flush_report = count_uploaded f.flush_report;
  }
  after_upload rec f (server, refused error) = record {
    flush_server = server;
    rows = save_pending (noted (some (prefix 200 error)) rec) f.rows;
    flush_report = count_failed f.flush_report;
  }

  abbrev pub is_wrong_size : DocumentPendingRecord → Bool
  is_wrong_size rec =
      base64_byte_length rec.data_base64 == 0 || ltb max_bytes (base64_byte_length rec.data_base64)

  -- One turn of the loop of `doFlush`.
  unfoldable pub flush_one : DocumentPendingRecord → Flush → Flush
  flush_one rec f =
      if is_wrong_size rec
      then record f {
        rows =
            save_pending (noted (some "the size of the local bytes is no longer right") rec) f.rows;
        flush_report = count_failed f.flush_report;
      }
      else after_upload rec f (upload f.flush_server rec)

  unfoldable pub flush_all : List DocumentPendingRecord → Flush → Flush
  flush_all [] f = f
  flush_all (rec ∷ recs) f = flush_all recs (flush_one rec f)

  abbrev pub doc_first : DocumentPendingRecord → DocumentPendingRecord → Bool
  doc_first a b =
      if same a.queued_at b.queued_at
      then not_after a.doc_id b.doc_id
      else not_after a.queued_at b.queued_at

  abbrev pub insert_doc :
      DocumentPendingRecord → List DocumentPendingRecord → List DocumentPendingRecord
  insert_doc a [] = a ∷ []
  insert_doc a (b ∷ bs) =
      let rest = insert_doc a bs in if doc_first a b then a ∷ b ∷ bs else b ∷ rest

  abbrev pub sort_docs : List DocumentPendingRecord → List DocumentPendingRecord
  sort_docs [] = []
  sort_docs (a ∷ recs) = insert_doc a (sort_docs recs)

  abbrev pub empty_report : DocumentFlushReport
  empty_report = record {
    attempted = 0;
    uploaded = 0;
    failed = 0;
    deferred = 0;
    skipped_offline = false;
  }

  abbrev pub count_deferred : DocumentRows → ℕ
  count_deferred rows = length (keep is_unsent (list_pending rows))

  abbrev pub end_flush : Flush → Flush
  end_flush f = record f {
    flush_report = record (f.flush_report) { deferred = count_deferred f.rows };
  }

  -- `doFlush(limit)`
  unfoldable pub do_flush : (is_online : Bool) → (limit : ℕ) → Server → DocumentRows → Flush
  do_flush false limit server rows = record {
    flush_server = server;
    rows = rows;
    flush_report = record empty_report { deferred = count_deferred rows; skipped_offline = true };
  }
  do_flush true limit server rows = end_flush (
      flush_all (take (max 1 limit) (sort_docs (keep is_unsent (list_pending rows))))
        (record { flush_server = server; rows = rows; flush_report = empty_report }))
