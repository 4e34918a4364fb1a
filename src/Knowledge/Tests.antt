-- ===== src/Knowledge/Tests.antt =====
-- A document of three runes through pkg/knowledge/ingestion, and its inserts run twice.
use ragivka.Prelude.{ℕ, ◌<◌, ◌≡◌, refl, String, true, List, [], ◌∷◌, map, length, arith, pos}
use ragivka.Errors.{Result, ok}
use ragivka.Tenant.{tenant_uuid_from_ctx}
use ragivka.Tenant.Sample.{unary_uuid, tenant_ctx}
use ragivka.Knowledge.Types.{pending, ready, Document, ChunkRow}
use ragivka.Knowledge.Chunker.{chunk}
use ragivka.Knowledge.Documents.{find_document, get_document, update_status}
use ragivka.Knowledge.Documents.Status.{HasStatus}
use ragivka.Knowledge.Indexer.{Piece, insert_chunks, index}
use ragivka.Knowledge.Indexer.Idempotent.{insert_chunks-again}
use ragivka.Knowledge.Indexer.Stored.{AllOrNothing, index-AllOrNothing}
use ragivka.Knowledge.Pipeline.{
  Stages, parser_for, ingest, embed_batches, embed_batch, with_embeddings, ask_embedder,
}
use ragivka.Knowledge.Pipeline.Embedded.{Embedded, embed_batches-Embedded}
use ragivka.Knowledge.Retrieval.Embedder.{OllamaEmbedConfig, Post, EmbedResponse, embed_texts}
use ragivka.Knowledge.Pipeline.Ready.{ingest-HasStatus}
use ragivka.World.{World, pure}
use ragivka.World.Sample.{start}

abbrev stages : Stages ℕ
stages = record {
  connect = λ ctx key. pure (1 ∷ []);
  to_lower = λ t. t;
  parse = λ kind bytes. ok ("a" ∷ "b" ∷ "c" ∷ []);
  scrub_text = λ t. t;
  embed = λ ctx texts n. ok (map (λ t. 1 ∷ []) texts);
  format = λ n. "1";
  is_vector = λ v. true;
  error_text = λ e. "failed";
  config = record { size = pos 2; overlap = pos 0 };
}

abbrev new_document : Document
new_document = record {
  id = 6;
  tenant_id = 5;
  doc_type = "txt";
  filename = "a.txt";
  s3_key = "a";
  size_bytes = 1;
  status = pending;
  error_msg = "";
  created_at = 0;
  updated_at = 0;
}

abbrev before : World
before = record start { documents = new_document ∷ [] }

abbrev run : Result (Unit {0}) × World
run = ingest stages ⦃uuid = unary_uuid⦄ (λ i. i) (tenant_ctx 5) 6 "a" "txt" before

tenant_5 : tenant_uuid_from_ctx ⦃uuid = unary_uuid⦄ (tenant_ctx 5) ≡ ok 5
unfolding tenant_uuid_from_ctx
tenant_5 = refl

finished : run.0 ≡ ok tt
unfolding ingest get_document update_status tenant_uuid_from_ctx find_document parser_for chunk
    index
finished = refl

ingest-HasStatus_example : HasStatus 6 5 ready run.1.documents
ingest-HasStatus_example =
    ingest-HasStatus stages ⦃uuid = unary_uuid⦄ (λ i. i) (tenant_ctx 5) 6 5 tenant_5 "a" "txt"
      before finished

abbrev row : ℕ → ℕ → String → ChunkRow
row id i text = record {
  id = id;
  tenant_id = 5;
  document_id = 6;
  content = text;
  token_count = 0;
  chunk_index = i;
  embedding = "[1]";
}

insert_chunks-again_example :
    insert_chunks
      (row 8 0 "ab" ∷ row 9 1 "c" ∷ [])
      (insert_chunks (row 1 0 "ab" ∷ row 2 1 "c" ∷ []) (row 3 1 "old" ∷ []))
    ≡ insert_chunks (row 1 0 "ab" ∷ row 2 1 "c" ∷ []) (row 3 1 "old" ∷ [])
insert_chunks-again_example =
    insert_chunks-again (row 1 0 "ab" ∷ row 2 1 "c" ∷ []) (row 8 0 "ab" ∷ row 9 1 "c" ∷ [])
      (row 3 1 "old" ∷ []) (refl, (refl, tt))

-- Two chunks into a table that has one of them.
abbrev half_done : World
half_done = record before { chunks = row 3 1 "b" ∷ [] }

abbrev new_pieces : List (Piece ℕ)
new_pieces =
    record { content = "a"; token_count = 1; chunk_index = 0; embedding = 1 ∷ [] }
    ∷ record { content = "b"; token_count = 1; chunk_index = 1; embedding = 2 ∷ [] }
    ∷ []

abbrev indexed : Result (Unit {0}) × World
indexed =
    index (λ n. "1") (λ i. i) ⦃uuid = unary_uuid⦄ (λ v. true) (tenant_ctx 5) 6 new_pieces half_done

indexed_ok : indexed.0 ≡ ok tt
unfolding index find_document tenant_uuid_from_ctx
indexed_ok = refl

index-AllOrNothing_example : AllOrNothing (λ n. "1") (λ i. i) 5 6 new_pieces half_done indexed
index-AllOrNothing_example =
    index-AllOrNothing (λ n. "1") (λ i. i) 5 6 ⦃uuid = unary_uuid⦄ (λ v. true) (tenant_ctx 5)
      new_pieces half_done tenant_5

-- The embedder behind an endpoint that answers two vectors.
abbrev config : OllamaEmbedConfig
config = record {
  api_url = "https://ollama.com/api/embed";
  api_key = "k";
  model = "m";
  expected_dim = 2;
}

abbrev post_ok : Post
post_ok ctx url auth req n = ok (200, "body")

abbrev unmarshal_two : String → Result (EmbedResponse ℕ)
unmarshal_two raw = ok (record { embeddings = (1 ∷ 2 ∷ []) ∷ (3 ∷ 4 ∷ []) ∷ []; error = "" })

abbrev embedder_stages : Stages ℕ
embedder_stages = record stages { embed = embed_texts config post_ok unmarshal_two }

abbrev piece : ℕ → String → List ℕ → Piece ℕ
piece i text v = record { content = text; token_count = 1; chunk_index = i; embedding = v }

abbrev two_pieces : List (Piece ℕ)
two_pieces = piece 0 "a" [] ∷ piece 1 "b" [] ∷ []

both_embedded :
    (embed_batches embedder_stages 2 (tenant_ctx 5) two_pieces before).0
    ≡ ok (piece 0 "a" (1 ∷ 2 ∷ []) ∷ piece 1 "b" (3 ∷ 4 ∷ []) ∷ [])
unfolding embed_batches embed_batch with_embeddings ask_embedder embed_texts
both_embedded = refl

embed_batches-Embedded_example :
    Embedded
      (λ v. 0 < 2 → length v ≡ 2)
      two_pieces
      (embed_batches embedder_stages 2 (tenant_ctx 5) two_pieces before).0
embed_batches-Embedded_example =
    embed_batches-Embedded config post_ok unmarshal_two embedder_stages refl
      (λ ctx url auth req n p never. absurd (ground arith)) (λ text p never. absurd (ground arith))
      2 (tenant_ctx 5) two_pieces before (omega arith)
