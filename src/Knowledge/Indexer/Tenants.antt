-- ===== src/Knowledge/Indexer/Tenants.antt =====
-- What the batch of INSERTs of pkg/knowledge/ingestion/indexer.go leaves of other tenants.
use ragivka.Prelude.{
  ℕ, ◌≡◌, ◌≢◌, refl, ◌∙◌, Bool, ◌&&◌, Bool-cases, inl, inr, String, List, [], ◌∷◌, All, map,
  is_some, arith,
}
use ragivka.Errors.{ok}
use ragivka.Tenant.{Ctx, Uuid, tenant_uuid_from_ctx}
use ragivka.Knowledge.Types.{ChunkRow}
use ragivka.Knowledge.Documents.{find_document, has_document_key}
use ragivka.Knowledge.Indexer.{
  Piece, has_chunk, insert_chunk, insert_chunks, all_vectors, row_of, batch_insert, index,
}
use ragivka.Knowledge.Retrieval.Hybrid.{chunks_of}
use ragivka.World.{World}
use ragivka.World.Keeps.{Keeps, statement-Keeps}

-- A chunk of one tenant is none of another's.
insert_chunk-chunks_of :
    (t : ℕ) (row : ChunkRow) (table : List ChunkRow)
    → row.tenant_id ≢ t
    → chunks_of t (insert_chunk row table) ≡ chunks_of t table
unfolding insert_chunk chunks_of
insert_chunk-chunks_of t row table apart = elim (Bool-cases (has_chunk row table)) [
  | inl there ↦ rw there refl
  | inr absent ↦ rw absent (ground arith)
]

insert_chunks-chunks_of :
    (t : ℕ) (rows table : List ChunkRow)
    → All (λ r. r.tenant_id ≢ t) rows
    → chunks_of t (insert_chunks rows table) ≡ chunks_of t table
unfolding insert_chunks
insert_chunks-chunks_of t [] table others = refl
insert_chunks-chunks_of t (row ∷ rest) table others =
    insert_chunks-chunks_of t rest (insert_chunk row table) others.1
    ∙ insert_chunk-chunks_of t row table others.0

module _ {F : Type 0} (format : F → String) (fresh : ℕ → ℕ) where
  row_of-foreign :
      (t tenant document : ℕ) (pieces : List (Piece F))
      → tenant ≢ t
      → All (λ (r : ChunkRow). r.tenant_id ≢ t) (map (row_of format fresh tenant document) pieces)
  row_of-foreign t tenant document [] apart = tt
  row_of-foreign t tenant document (p ∷ rest) apart =
      (apart, row_of-foreign t tenant document rest apart)

  module _ {S : Type 0} (view : World → S)
      (blind : (w : World) (fs : List Bool) → view (record w { faults = fs }) ≡ view w)
      (t tenant : ℕ) (apart : tenant ≢ t)
      (own : (w : World) (cs : List ChunkRow)
        → chunks_of t cs ≡ chunks_of t w.chunks
        → view (record w { chunks = cs }) ≡ view w) where
    batch_insert-Keeps :
        (is_vector : String → Bool) (document : ℕ) (rows : List ChunkRow)
        → All (λ r. r.tenant_id ≢ t) rows
        → Keeps view (batch_insert format fresh is_vector tenant document rows)
    unfolding batch_insert
    batch_insert-Keeps is_vector document rows others w =
        elim (Bool-cases (
          is_some (find_document (has_document_key document tenant) w.documents)
          && all_vectors is_vector rows)) [
            | inl good ↦ rw good (
                own w (insert_chunks rows w.chunks)
                  (insert_chunks-chunks_of t rows w.chunks others))
            | inr bad ↦ rw bad refl
          ]

    -- The index of a document writes chunks of its tenant only.
    pub index-Keeps :
        ⦃uuid : Uuid⦄ (is_vector : String → Bool) (ctx : Ctx) (document : ℕ)
        (pieces : List (Piece F))
        → tenant_uuid_from_ctx ctx ≡ ok tenant
        → Keeps view (index format fresh is_vector ctx document pieces)
    unfolding index
    index-Keeps is_vector ctx document [] et w = refl
    index-Keeps is_vector ctx document (p ∷ rest) et w =
        let rows = map (row_of format fresh tenant document) (p ∷ rest) in
        rw et (
          statement-Keeps view (batch_insert format fresh is_vector tenant document rows) blind
            (batch_insert-Keeps is_vector document rows
              (row_of-foreign t tenant document (p ∷ rest) apart))
            w)
