-- ===== src/Knowledge/Pipeline/Embedded.antt =====
-- The loop of pkg/knowledge/ingestion/pipeline.go over the batches, with the embedder of embedder.go.
use ragivka.Prelude.{
  ℕ, zero, suc, ◌≤◌, ◌<◌, ◌≡◌, refl, sym, ap, ◌∙◌, ◌⊎◌, inl, inr, String, List, [], ◌∷◌, ◌++◌, All,
  map, length, take, drop, arith, take-append-drop, length-drop, length-map,
}
use ragivka.Errors.{Err, Result, ok, err, wrap, Returns, Result-Cases, Cases}
use ragivka.Tenant.{Ctx}
use ragivka.Knowledge.Indexer.{Piece}
use ragivka.Knowledge.Pipeline.{
  Stages, embed_batch_size, ask_embedder, with_embeddings, embed_batch, embed_batches,
}
use ragivka.Knowledge.Retrieval.Embedder.{
  OllamaEmbedConfig, EmbedResponse, EmbedRequest, Post, embed_texts,
}
use ragivka.Knowledge.Retrieval.Embedder.Shape.{embed_texts-shape, embed_texts-Returns}
use ragivka.World.{World}

spread : {A P : Type 0} (Q : A → Type 0) (xs : List A) → (P → All Q xs) → All (λ a. P → Q a) xs
spread Q [] h = tt
spread Q (x ∷ xs) h = ((λ p. (h p).0), spread Q xs (λ p. (h p).1))

map-append : {A B : Type 0} (f : A → B) (xs ys : List A) → map f (xs ++ ys) ≡ map f xs ++ map f ys
map-append f [] ys = refl
map-append f (x ∷ xs) ys = ap (λ l. f x ∷ l) (map-append f xs ys)

All-append : {A : Type 0} (P : A → Type 0) (xs ys : List A) → All P xs → All P ys → All P (xs ++ ys)
All-append P [] ys h k = k
All-append P (x ∷ xs) ys h k = (h.0, All-append P xs ys h.1 k)

module _ {F : Type 0} where
  abbrev pub without_vector : Piece F → Piece F
  without_vector p = record p { embedding = [] }

  -- Whatever else a chunk holds is what it was.
  abbrev pub Filled : (List F → Type 0) → List (Piece F) → List (Piece F) → Type 0
  Filled P pieces done =
      (map without_vector done ≡ map without_vector pieces) × All (λ p. P p.embedding) done

  abbrev pub Embedded : (List F → Type 0) → List (Piece F) → Result (List (Piece F)) → Type 0
  Embedded P pieces r =
      ((e : Err) × (r ≡ err e)) ⊎ ((done : List (Piece F)) × (r ≡ ok done) × Filled P pieces done)

  Filled-append :
      (P : List F → Type 0) (n : ℕ) (pieces done later : List (Piece F))
      → Filled P (take n pieces) done
      → Filled P (drop n pieces) later
      → Filled P pieces (done ++ later)
  Filled-append P n pieces done later (e, h) (f, k) = (
    map-append without_vector done later
        ∙ ap (λ l. l ++ map without_vector later) e
        ∙ ap (λ l. map without_vector (take n pieces) ++ l) f
        ∙ sym (map-append without_vector (take n pieces) (drop n pieces))
        ∙ ap (map without_vector) (take-append-drop n pieces),
    All-append (λ p. P p.embedding) done later h k,
  )

  module _ (stages : Stages F) (P : List F → Type 0) where
    -- One vector for each text, with the property, or an error.
    abbrev Embeds : Type 0
    Embeds =
        (ctx : Ctx) (texts : List String) (n : ℕ)
        → ((e : Err) × (stages.embed ctx texts n ≡ err e))
          ⊎ ((vs : List (List F)) × (stages.embed ctx texts n ≡ ok vs)
              × (length vs ≡ length texts)
              × All P vs)

    with_embeddings-Filled :
        (pieces : List (Piece F)) (vs : List (List F))
        → length vs ≡ length pieces
        → All P vs
        → (done : List (Piece F)) × (with_embeddings stages pieces vs ≡ ok done)
          × Filled P pieces done
    unfolding with_embeddings
    with_embeddings-Filled [] vs h k = ([], refl, (refl, tt))
    with_embeddings-Filled (p ∷ rest) [] h k = absurd (omega (arith, h))
    with_embeddings-Filled (p ∷ rest) (v ∷ vs) h k =
        let (done, e, (same, each)) = with_embeddings-Filled rest vs (omega (arith, h)) k.1 in
        (
          record p { embedding = v } ∷ done,
          rw e refl,
          (ap (λ l. without_vector p ∷ l) same, (k.0, each)),
        )

    embed_batch-Embedded :
        Embeds
        → (ctx : Ctx) (batch : List (Piece F)) (w : World)
        → Embedded P batch (embed_batch stages ctx batch w).0
    unfolding embed_batch ask_embedder
    embed_batch-Embedded h ctx batch w =
        elim (h ctx (map (λ p. p.content) batch) (length w.calls)) [
          | inl (e, f) ↦ inl (wrap "embed batch" e, rw f refl)
          | inr (vs, f, n, each) ↦
              let (done, g, filled) =
                with_embeddings-Filled batch vs (n ∙ length-map batch (λ p. p.content)) each in
              inr (done, rw (f, g) refl, filled)
        ]

    all_batches-Embedded :
        Embeds
        → (fuel : ℕ) (ctx : Ctx) (pieces : List (Piece F)) (w : World) → length pieces ≤ fuel
        → Embedded P pieces (embed_batches stages fuel ctx pieces w).0
    unfolding embed_batches
    all_batches-Embedded h zero ctx [] w le = inr ([], refl, (refl, tt))
    all_batches-Embedded h zero ctx (p ∷ rest) w le = absurd (omega (arith, le))
    all_batches-Embedded h (suc fuel) ctx [] w le = inr ([], refl, (refl, tt))
    all_batches-Embedded h (suc fuel) ctx (p ∷ rest) w le =
        let first = embed_batch stages ctx (take embed_batch_size (p ∷ rest)) w in
        elim (embed_batch-Embedded h ctx (take embed_batch_size (p ∷ rest)) w) [
          | inl (e, f) ↦ inl (e, rw f refl)
          | inr (done, f, filled) ↦
              elim (all_batches-Embedded h fuel ctx (drop embed_batch_size (p ∷ rest)) first.1
                (omega (arith, le, length-drop embed_batch_size (p ∷ rest)))) [
                  | inl (e, g) ↦ inl (e, rw (f, g) refl)
                  | inr (later, g, filled') ↦ inr (
                    done ++ later,
                    rw (f, g) refl,
                    Filled-append P embed_batch_size (p ∷ rest) done later filled filled',
                  )
                ]
        ]

-- The loop over the batches, with the embedder of this package behind it, never panics, whatever
-- the endpoint answers: it ends with an error, or with the chunks as they were, in their order, each
-- with a vector, of the expected dimension if one is set, provided that the HTTP post and the JSON
-- decoder do not panic and that the fuel is no less than the number of chunks.
pub embed_batches-Embedded :
    {F : Type 0} (cfg : OllamaEmbedConfig) (post : Post)
    (unmarshal : String → Result (EmbedResponse F)) (stages : Stages F)
    → stages.embed ≡ embed_texts cfg post unmarshal
    → ((ctx : Ctx) (url auth : String) (req : EmbedRequest) (n : ℕ)
        → Returns (post ctx url auth req n))
    → ((text : String) → Returns (unmarshal text))
    → (fuel : ℕ) (ctx : Ctx) (pieces : List (Piece F)) (w : World) → length pieces ≤ fuel
    → Embedded
        (λ v. 0 < cfg.expected_dim → length v ≡ cfg.expected_dim)
        pieces
        (embed_batches stages fuel ctx pieces w).0
embed_batches-Embedded {F} cfg post unmarshal stages same posts decodes =
    all_batches-Embedded stages (λ v. 0 < cfg.expected_dim → length v ≡ cfg.expected_dim)
      (λ ctx texts n. rw same (elim (Result-Cases (embed_texts cfg post unmarshal ctx texts n)) [
        | Cases.is_err e f ↦ inl (e, f)
        | Cases.is_panic p f ↦
            absurd (embed_texts-Returns cfg post unmarshal posts decodes ctx texts n p f)
        | Cases.is_ok vs f ↦
            let (count, dim) = embed_texts-shape cfg post unmarshal ctx texts n f in
            inr (vs, f, count, spread (λ v. length v ≡ cfg.expected_dim) vs dim)
      ]))
