-- ===== src/Knowledge/Indexer.antt =====
-- The chunk table of pkg/knowledge/ingestion/indexer.go: the batch of inserts and the literals.
pub mod Idempotent
pub mod Tenants
pub mod Stored
use ragivka.Prelude.{
  ℕ, Bool, true, false, ◌&&◌, ◌||◌, String, Option, some, none, List, [], ◌∷◌, map, is_some, ◌==◌,
  append, joined, if◌then◌else◌, not,
}
use ragivka.Errors.{ok, err, other}
use ragivka.Tenant.{Ctx, Uuid, tenant_uuid_from_ctx}
use ragivka.Knowledge.Types.{ChunkRow}
use ragivka.Knowledge.Documents.{find_document, has_document_key}
use ragivka.World.{World, Exec, ◌>>=◌, pure, fail, lift, statement, context}

-- A chunk on its way through the pipeline; a vector is a list of float32.
pub record Piece (F : Type 0) : Type 0 where
  pub content : String
  pub token_count : ℕ
  pub chunk_index : ℕ
  pub embedding : List F

-- The numbers by strconv.FormatFloat, between commas and brackets.
pub vector_literal : {F : Type 0} → (F → String) → List F → String
vector_literal format v = append "[" (append (joined "," (map format v)) "]")

abbrev pub same_chunk : ChunkRow → ChunkRow → Bool
same_chunk a b =
    a.tenant_id == b.tenant_id && a.document_id == b.document_id && a.chunk_index == b.chunk_index

unfoldable pub has_chunk : ChunkRow → List ChunkRow → Bool
has_chunk row [] = false
has_chunk row (c ∷ rest) = same_chunk c row || has_chunk row rest

-- ON CONFLICT (tenant_id, document_id, chunk_index) DO NOTHING
pub insert_chunk : ChunkRow → List ChunkRow → List ChunkRow
unfolding has_chunk
insert_chunk row table = if has_chunk row table then table else row ∷ table

pub insert_chunks : List ChunkRow → List ChunkRow → List ChunkRow
insert_chunks [] table = table
insert_chunks (row ∷ rest) table = insert_chunks rest (insert_chunk row table)

all_vectors : (String → Bool) → List ChunkRow → Bool
all_vectors is_vector [] = true
all_vectors is_vector (r ∷ rest) = is_vector r.embedding && all_vectors is_vector rest

module _ {F : Type 0} (format : F → String) (fresh : ℕ → ℕ) where
  -- `fresh` gives the ids of uuid.New(), by chunk.
  abbrev pub row_of : ℕ → ℕ → Piece F → ChunkRow
  row_of tenant document p = record {
    id = fresh p.chunk_index;
    tenant_id = tenant;
    document_id = document;
    content = p.content;
    token_count = p.token_count;
    chunk_index = p.chunk_index;
    embedding = vector_literal format p.embedding;
  }

  -- The batch is one implicit transaction: the foreign key to the document, or a literal that is
  -- no vector of the column's dimension, undoes all of it.
  batch_insert : (String → Bool) → ℕ → ℕ → List ChunkRow → Exec (Unit {0})
  unfolding insert_chunks all_vectors
  batch_insert is_vector tenant document rows w =
      if is_some (find_document (has_document_key document tenant) w.documents)
        && all_vectors is_vector rows
      then (ok tt, record w { chunks = insert_chunks rows w.chunks })
      else (err (other "constraint violation"), w)

  unfoldable pub index :
      ⦃uuid : Uuid⦄ → (String → Bool) → Ctx → ℕ → List (Piece F) → Exec (Unit {0})
  unfolding batch_insert
  index is_vector ctx document [] = pure tt
  index is_vector ctx document (p ∷ rest) = do
    tenant ← lift (tenant_uuid_from_ctx ctx)
    context "indexer: insert chunk" (
        statement
          (batch_insert is_vector tenant document (map (row_of tenant document) (p ∷ rest))))
