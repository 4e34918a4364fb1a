-- ===== src/Knowledge/Indexer/Stored.antt =====
-- What the batch of INSERTs of pkg/knowledge/ingestion/indexer.go has stored when it ends.
use mathlib.Core.Path.{subst}
use ragivka.Prelude.{
  ℕ, ◌≡◌, refl, sym, Bool, true, ◌&&◌, Bool-cases, ◌⊎◌, inl, inr, String, List, [], ◌∷◌, map, In,
  is_some, arith, All,
}
use ragivka.Errors.{Err, Result, ok, err, other, wrap, wrapped}
use ragivka.Tenant.{Ctx, Uuid, tenant_uuid_from_ctx}
use ragivka.Knowledge.Types.{ChunkRow}
use ragivka.Knowledge.Documents.{find_document, has_document_key}
use ragivka.Knowledge.Indexer.{
  Piece, same_chunk, has_chunk, insert_chunk, insert_chunks, all_vectors, row_of, batch_insert,
  index, vector_literal,
}
use ragivka.Knowledge.Indexer.Idempotent.{insert_chunks-keeps, insert_chunk-has}
use ragivka.World.{World, statement}
use ragivka.World.Laws.{statement-cases}

insert_chunk-kept :
    (r row : ChunkRow) (table : List ChunkRow) → In r table → In r (insert_chunk row table)
unfolding insert_chunk
insert_chunk-kept r row table h = elim (Bool-cases (has_chunk row table)) [
  | inl there ↦ rw there h
  | inr absent ↦ rw absent (inr h)
]

insert_chunks-kept :
    (r : ChunkRow) (rows table : List ChunkRow) → In r table → In r (insert_chunks rows table)
unfolding insert_chunks
insert_chunks-kept r [] table h = h
insert_chunks-kept r (row ∷ rest) table h =
    insert_chunks-kept r rest (insert_chunk row table) (insert_chunk-kept r row table h)

insert_chunk-from :
    (r row : ChunkRow) (table : List ChunkRow)
    → In r (insert_chunk row table)
    → In r table ⊎ In r (row ∷ [])
unfolding insert_chunk
insert_chunk-from r row table h = elim (Bool-cases (has_chunk row table)) [
  | inl there ↦ inl (rw there at h)
  | inr absent ↦
      let either : In r (row ∷ table) = rw absent at h in
      elim either [ inl e ↦ inr (inl e) | inr old ↦ inl old ]
]

insert_chunks-from :
    (r : ChunkRow) (rows table : List ChunkRow)
    → In r (insert_chunks rows table)
    → In r table ⊎ In r rows
unfolding insert_chunks
insert_chunks-from r [] table h = inl h
insert_chunks-from r (row ∷ rest) table h =
    elim (insert_chunks-from r rest (insert_chunk row table) h) [
      | inr later ↦ inr (inr later)
      | inl before ↦ elim (insert_chunk-from r row table before) [
        | inl old ↦ inl old
        | inr (inl e) ↦ inr (inl e)
        | inr (inr never) ↦ absurd never
      ]
    ]

-- A row of the table has the key of a given row.
abbrev pub HasKey : ℕ → ℕ → ℕ → List ChunkRow → Type 0
HasKey tenant document i table =
    (row : ChunkRow) × In row table
    × (row.tenant_id ≡ tenant)
    × (row.document_id ≡ document)
    × (row.chunk_index ≡ i)

has_chunk-HasKey :
    (row : ChunkRow) (table : List ChunkRow)
    → has_chunk row table ≡ true
    → HasKey row.tenant_id row.document_id row.chunk_index table
unfolding has_chunk
has_chunk-HasKey row [] h = absurd (ground arith)
has_chunk-HasKey row (c ∷ rest) h = elim (Bool-cases (same_chunk c row)) [
  | inl same ↦ (c, inl refl, ground arith, ground arith, ground arith)
  | inr differs ↦
      let (r, there, t, d, i) = has_chunk-HasKey row rest (ground arith) in (r, inr there, t, d, i)
]

module _ {F : Type 0} (format : F → String) (fresh : ℕ → ℕ) (tenant document : ℕ) where
  -- The row bears what the chunk holds, under the tenant and the document.
  abbrev pub Bears : Piece F → ChunkRow → Type 0
  Bears p r =
      (r.tenant_id ≡ tenant)
      × (r.document_id ≡ document)
      × (r.content ≡ p.content)
      × (r.token_count ≡ p.token_count)
      × (r.chunk_index ≡ p.chunk_index)
      × (r.embedding ≡ vector_literal format p.embedding)

  abbrev pub IsRow : List (Piece F) → ChunkRow → Type 0
  IsRow pieces r = (p : Piece F) × In p pieces × Bears p r

  In-rows :
      (r : ChunkRow) (pieces : List (Piece F))
      → In r (map (row_of format fresh tenant document) pieces)
      → IsRow pieces r
  In-rows r [] h = absurd h
  In-rows r (p ∷ rest) (inl e) =
      (p, inl refl, subst (Bears p) (sym e) (refl, refl, refl, refl, refl, refl))
  In-rows r (p ∷ rest) (inr later) = let (q, there, e) = In-rows r rest later in (q, inr there, e)

  -- The old rows are all there, what is new is the row of a chunk, and no chunk is without a row.
  abbrev pub IsStored : List (Piece F) → List ChunkRow → List ChunkRow → Type 0
  IsStored pieces old table =
      ((r : ChunkRow) → In r old → In r table)
      × ((r : ChunkRow) → In r table → In r old ⊎ IsRow pieces r)
      × All (λ p. HasKey tenant document p.chunk_index table) pieces

  each-HasKey :
      (pieces : List (Piece F)) (table : List ChunkRow)
      → All
          (λ p.
            HasKey tenant document p.chunk_index
              (insert_chunks (map (row_of format fresh tenant document) pieces) table))
          pieces
  unfolding insert_chunks
  each-HasKey [] table = tt
  each-HasKey (p ∷ rest) table =
      let row = row_of format fresh tenant document p in
      let rows = map (row_of format fresh tenant document) rest in
      (
        has_chunk-HasKey row (insert_chunks rows (insert_chunk row table))
            (insert_chunks-keeps row rows (insert_chunk row table) (insert_chunk-has row table)),
        each-HasKey rest (insert_chunk row table),
      )

  insert_chunks-IsStored :
      (pieces : List (Piece F)) (table : List ChunkRow)
      → IsStored pieces table
          (insert_chunks (map (row_of format fresh tenant document) pieces) table)
  insert_chunks-IsStored pieces table =
      let rows = map (row_of format fresh tenant document) pieces in
      (
        λ r h. insert_chunks-kept r rows table h,
        λ r h. elim (insert_chunks-from r rows table h) [
          | inl old ↦ inl old
          | inr new ↦ inr (In-rows r pieces new)
        ],
        each-HasKey pieces table,
      )

  -- All of the chunks, or an error and nothing.
  abbrev pub AllOrNothing : List (Piece F) → World → Result (Unit {0}) × World → Type 0
  AllOrNothing pieces w out =
      ((out.0 ≡ ok tt) × IsStored pieces w.chunks out.1.chunks)
      ⊎ ((e : Err) × (out.0 ≡ err e) × (out.1.chunks ≡ w.chunks))

  batch_insert-AllOrNothing :
      (is_vector : String → Bool) (pieces : List (Piece F)) (w : World)
      → AllOrNothing pieces w (
          batch_insert format fresh is_vector tenant document
            (map (row_of format fresh tenant document) pieces)
            w)
  unfolding batch_insert
  batch_insert-AllOrNothing is_vector pieces w =
      elim (Bool-cases (
        is_some (find_document (has_document_key document tenant) w.documents)
        && all_vectors is_vector (map (row_of format fresh tenant document) pieces))) [
          | inl good ↦ rw good (inl (refl, insert_chunks-IsStored pieces w.chunks))
          | inr bad ↦ rw bad (inr (other "constraint violation", refl, refl))
        ]

  wrapped-AllOrNothing :
      (text : String) (pieces : List (Piece F)) (w : World) (out : Result (Unit {0}) × World)
      → AllOrNothing pieces w out
      → AllOrNothing pieces w (wrapped text out.0, out.1)
  wrapped-AllOrNothing text pieces w out (inl (e, stored)) = inl (rw e refl, stored)
  wrapped-AllOrNothing text pieces w out (inr (x, e, same)) = inr (wrap text x, rw e refl, same)

  -- Under a context with a tenant, Index ends in one of two ways, whatever the database does. Either
  -- it succeeds: then each chunk's index has a row of the tenant and the document, the rows that
  -- were there are all there still, and any other row is that of one of the chunks, with its
  -- content, its token count and its vector. Or it fails, and the table is as it was.
  pub index-AllOrNothing :
      ⦃uuid : Uuid⦄ (is_vector : String → Bool) (ctx : Ctx) (pieces : List (Piece F)) (w : World)
      → tenant_uuid_from_ctx ctx ≡ ok tenant
      → AllOrNothing pieces w (index format fresh is_vector ctx document pieces w)
  unfolding index
  index-AllOrNothing is_vector ctx [] w et = inl (refl, insert_chunks-IsStored [] w.chunks)
  index-AllOrNothing is_vector ctx (p ∷ rest) w et =
      let rows = map (row_of format fresh tenant document) (p ∷ rest) in
      let batch = batch_insert format fresh is_vector tenant document rows in
      let ended =
        statement-cases batch w (AllOrNothing (p ∷ rest) w)
          (λ fs. batch_insert-AllOrNothing is_vector (p ∷ rest) (record w { faults = fs }))
          (λ fs. inr (other "database error", refl, refl)) in
      let out : Result (Unit {0}) × World =
        (wrapped "indexer: insert chunk" (statement batch w).0, (statement batch w).1) in
      let ran : index format fresh is_vector ctx document (p ∷ rest) w ≡ out = rw et refl in
      subst (AllOrNothing (p ∷ rest) w) (sym ran)
        (wrapped-AllOrNothing "indexer: insert chunk" (p ∷ rest) w (statement batch w) ended)
