-- ===== src/Knowledge/Pipeline.antt =====
-- pkg/knowledge/ingestion/pipeline.go, jobs.go and pii.go: a document becomes embedded chunks.
pub mod Ready
pub mod Embedded
pub mod Isolation
use ragivka.Prelude.{
  ℕ, zero, suc, Bool, true, false, String, List, [], ◌∷◌, ◌++◌, map, length, take, drop, ltb, ◌==◌,
  str_eq, ◌||◌, if◌then◌else◌, concat,
}
use ragivka.Errors
use ragivka.Errors.{Err, Result, ok, err, panic, other}
use ragivka.Tenant.{Ctx, Uuid, with_tenant_id}
use ragivka.Aicore.Sanitize.{Regexp}
use ragivka.Knowledge.Types.{DocumentStatus, pending, processing, ready, failed, Document}
use ragivka.Knowledge.Chunker.{ChunkConfig, Chunk, chunk}
use ragivka.Knowledge.Documents.{get_document, update_status}
use ragivka.Knowledge.Indexer.{Piece, index}
use ragivka.World.{World, Exec, Call, ◌>>=◌, ◌>>◌, pure, fail, lift, context, attempt}

abbrev pub embed_batch_size : ℕ
embed_batch_size = 16

abbrev pub max_document_bytes : ℕ
max_document_bytes = 104857600

pub data Format : Type 0 where
  txt html pdf docx : Format

-- The document types that ParserFor knows, in lower case.
unfoldable pub parser_for : String → Result Format
parser_for t =
    if str_eq t "txt" || str_eq t "text/plain"
    then ok txt
    else (if str_eq t "html" || str_eq t "text/html"
        then ok html
        else (if str_eq t "pdf" || str_eq t "application/pdf"
            then ok pdf
            else (if str_eq t "docx"
                  || str_eq t
                      "application/vnd.openxmlformats-officedocument.wordprocessingml.document"
                then ok docx
                else err (other "unsupported document type"))))

pii_patterns : List (String × String)
pii_patterns =
    ("\\b[A-Za-z0-9._%+\\-]+@[A-Za-z0-9.\\-]+\\.[A-Za-z]{2,}\\b", "[EMAIL]")
    ∷ ("\\b(\\+?1[\\s\\-.]?)?\\(?\\d{3}\\)?[\\s\\-.]?\\d{3}[\\s\\-.]?\\d{4}\\b", "[PHONE]")
    ∷ ("\\b\\d{3}-\\d{2}-\\d{4}\\b", "[SSN]")
    ∷ (
      "\\b(?:4[0-9]{12}(?:[0-9]{3})?|5[1-5][0-9]{14}|3[47][0-9]{13}|6(?:011|5[0-9]{2})[0-9]{12})\\b",
      "[CARD]",
    )
    ∷ ("\\b[A-Z]{1,2}\\d{6,9}\\b", "[PASSPORT]")
    ∷ []

-- No replacement has a `$`, so ReplaceAllString takes it literally.
scrub_with : ⦃regexp : Regexp⦄ → List (String × String) → String → String
scrub_with [] text = text
scrub_with ⦃regexp⦄ ((pattern, replacement) ∷ rest) text =
    scrub_with rest (regexp.replace_all_literal pattern text replacement)

pub scrub : ⦃regexp : Regexp⦄ → String → String
unfolding pii_patterns scrub_with
scrub text = scrub_with pii_patterns text

pub record IngestDocumentArgs : Type 0 where
  pub tenant_id : ℕ
  pub document_id : ℕ
  pub s3_key : String
  pub doc_type : String

-- What the pipeline is built from: the connector opens a document, and gives the bytes up to a
-- limit; the parsers are libraries; texts come as runes.
pub record Stages (F : Type 0) : Type 0 where
  pub connect : Ctx → String → Exec (List ℕ)
  pub to_lower : String → String
  pub parse : Format → List ℕ → Result (List String)
  pub scrub_text : String → String
  pub embed : Ctx → List String → ℕ → Result (List (List F))
  pub format : F → String
  pub is_vector : String → Bool
  pub error_text : Err → String
  pub config : ChunkConfig

module _ {F : Type 0} (stages : Stages F) where
  scrubbed : Chunk String → Piece F
  scrubbed c = record {
    content = stages.scrub_text (concat c.content);
    token_count = c.token_count;
    chunk_index = c.chunk_index;
    embedding = [];
  }

  unfoldable pub ask_embedder : Ctx → List String → Exec (List (List F))
  ask_embedder ctx texts w =
      (stages.embed ctx texts (length w.calls), record w { calls = Call.embed texts ∷ w.calls })

  -- chunks[start+i].Embedding = embeddings[i]: too few embeddings are an index out of range.
  unfoldable pub with_embeddings : List (Piece F) → List (List F) → Result (List (Piece F))
  with_embeddings [] vs = ok []
  with_embeddings (p ∷ rest) [] = panic "index out of range"
  with_embeddings (p ∷ rest) (v ∷ vs) =
      Errors.on_ok (λ done. ok (record p { embedding = v } ∷ done)) (with_embeddings rest vs)

  unfoldable pub embed_batch : Ctx → List (Piece F) → Exec (List (Piece F))
  unfolding ask_embedder with_embeddings
  embed_batch ctx batch = do
    vs ← context "embed batch" (ask_embedder ctx (map (λ p. p.content) batch))
    lift (with_embeddings batch vs)

  -- The number of chunks is fuel enough: each turn takes a batch off.
  unfoldable pub embed_batches : ℕ → Ctx → List (Piece F) → Exec (List (Piece F))
  unfolding embed_batch
  embed_batches zero ctx pieces = pure []
  embed_batches (suc fuel) ctx [] = pure []
  embed_batches (suc fuel) ctx (p ∷ rest) = do
    done ← embed_batch ctx (take embed_batch_size (p ∷ rest))
    later ← embed_batches fuel ctx (drop embed_batch_size (p ∷ rest))
    pure (done ++ later)

  within_limit : List ℕ → Result (List ℕ)
  within_limit bytes =
      if ltb max_document_bytes (length bytes)
      then err (other "document exceeds maximum size")
      else ok bytes

  some_chunks : List (Chunk String) → Result (List (Chunk String))
  some_chunks [] = err (other "document produced no chunks after parsing")
  some_chunks (c ∷ rest) = ok (c ∷ rest)

  module _ ⦃uuid : Uuid⦄ (fresh : ℕ → ℕ) where
    process : Ctx → ℕ → String → String → Exec (Unit {0})
    unfolding within_limit some_chunks scrubbed embed_batches
    process ctx document key doc_type = do
      bytes ← context "connector" (stages.connect ctx key)
      data_ ← lift (within_limit (take (suc max_document_bytes) bytes))
      kind ← lift (parser_for (stages.to_lower doc_type))
      text ← context "parse" (lift (stages.parse kind data_))
      chunks ← lift (some_chunks (chunk text stages.config))
      pieces ← embed_batches (length chunks) ctx (map scrubbed chunks)
      index stages.format fresh stages.is_vector ctx document pieces

    -- The error of marking a document as failed is dropped.
    finish : Ctx → ℕ → Result (Unit {0}) → Exec (Unit {0})
    finish ctx document (ok _) = update_status ctx document ready ""
    finish ctx document (err e) = do
      r ← attempt (update_status ctx document failed (stages.error_text e))
      fail e
    finish ctx document (panic p) = lift (panic p)

    attempt_run : Ctx → ℕ → String → String → Exec (Unit {0})
    unfolding process finish
    attempt_run ctx document key doc_type = do
      marked ← context "pipeline: mark processing" (update_status ctx document processing "")
      r ← attempt (process ctx document key doc_type)
      finish ctx document r

    -- A document that is Failed, or still Processing, is done again.
    unless_ready : Ctx → ℕ → String → String → DocumentStatus → Exec (Unit {0})
    unfolding attempt_run
    unless_ready ctx document key doc_type ready = pure tt
    unless_ready ctx document key doc_type _ = attempt_run ctx document key doc_type

    unfoldable pub ingest : Ctx → ℕ → String → String → Exec (Unit {0})
    unfolding unless_ready
    ingest ctx document key doc_type = do
      d ← context "pipeline: check document status" (get_document ctx document)
      unless_ready ctx document key doc_type d.status

    -- IngestDocumentWorker.Work
    pub ingest_job : Ctx → IngestDocumentArgs → Exec (Unit {0})
    ingest_job ctx args =
        if args.tenant_id == 0
        then fail (other "ingest_document: missing tenant_id in job args")
        else context "ingest_document" (
            ingest (with_tenant_id ctx (uuid.to_string args.tenant_id)) args.document_id args.s3_key
              args.doc_type)
