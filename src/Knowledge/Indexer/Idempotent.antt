-- ===== src/Knowledge/Indexer/Idempotent.antt =====
-- The batch of pkg/knowledge/ingestion/indexer.go, run once and run again.
use ragivka.Prelude.{◌≡◌, refl, true, List, [], ◌∷◌, arith, All}
use ragivka.Knowledge.Types.{ChunkRow}
use ragivka.Knowledge.Indexer.{same_chunk, has_chunk, insert_chunk, insert_chunks}

-- Rows with the same keys, whatever their ids and contents.
abbrev pub SameKeys : List ChunkRow → List ChunkRow → Type 0
SameKeys [] [] = Unit
SameKeys (a ∷ more) (b ∷ rest) = (same_chunk a b ≡ true) × SameKeys more rest
SameKeys _ _ = ⊥

insert_chunk-keeps :
    (row other : ChunkRow) (table : List ChunkRow)
    → has_chunk row table ≡ true
    → has_chunk row (insert_chunk other table) ≡ true
unfolding insert_chunk has_chunk
insert_chunk-keeps row other table h = ground arith

pub insert_chunks-keeps :
    (row : ChunkRow) (rows table : List ChunkRow)
    → has_chunk row table ≡ true
    → has_chunk row (insert_chunks rows table) ≡ true
unfolding insert_chunks
insert_chunks-keeps row [] table h = h
insert_chunks-keeps row (r ∷ rest) table h =
    insert_chunks-keeps row rest (insert_chunk r table) (insert_chunk-keeps row r table h)

has_chunk-same :
    (a b : ChunkRow) (table : List ChunkRow)
    → same_chunk a b ≡ true
    → has_chunk a table ≡ has_chunk b table
unfolding has_chunk
has_chunk-same a b [] h = refl
has_chunk-same a b (c ∷ rest) h = let ih = has_chunk-same a b rest h in ground arith

pub insert_chunk-has :
    (row : ChunkRow) (table : List ChunkRow) → has_chunk row (insert_chunk row table) ≡ true
unfolding insert_chunk has_chunk
insert_chunk-has row table = ground arith

-- Rows whose keys are all there are not inserted.
insert_chunks-none :
    (rows table : List ChunkRow)
    → All (λ r. has_chunk r table ≡ true) rows
    → insert_chunks rows table ≡ table
unfolding insert_chunks insert_chunk
insert_chunks-none [] table h = refl
insert_chunks-none (r ∷ rest) table h = rw h.0 (insert_chunks-none rest table h.1)

each_there :
    (rows again table : List ChunkRow)
    → SameKeys rows again
    → All (λ r. has_chunk r (insert_chunks rows table) ≡ true) again
unfolding insert_chunks
each_there [] [] table h = tt
each_there [] (b ∷ rest) table h = absurd h
each_there (a ∷ more) [] table h = absurd h
each_there (a ∷ more) (b ∷ rest) table h =
    let there = insert_chunks-keeps a more (insert_chunk a table) (insert_chunk-has a table) in
    (
      rw (← has_chunk-same a b (insert_chunks more (insert_chunk a table)) h.0) there,
      each_there more rest (insert_chunk a table) h.1,
    )

-- Running the inserts of a document again, with new ids and whatever contents and vectors, under
-- the same tenant, document and chunk indices, leaves the table as the first run left it.
pub insert_chunks-again :
    (rows again table : List ChunkRow)
    → SameKeys rows again
    → insert_chunks again (insert_chunks rows table) ≡ insert_chunks rows table
insert_chunks-again rows again table h =
    insert_chunks-none again (insert_chunks rows table) (each_there rows again table h)
