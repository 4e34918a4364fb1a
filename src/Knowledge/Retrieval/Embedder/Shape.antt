-- ===== src/Knowledge/Retrieval/Embedder/Shape.antt =====
-- What the embedder of pkg/knowledge/ingestion/embedder.go returns.
use mathlib.Core.Path.{subst}
use ragivka.Prelude.{
  ℕ, ◌<◌, ◌≡◌, ◌≢◌, refl, Bool, true, false, ◌&&◌, not, String, List, [], ◌∷◌, All, length, ltb,
  ◌==◌, str_eq, Bool-cases, inl, inr, arith, lt→ltb,
}
use ragivka.Errors.{
  Result, ok, err, other, wrapped, ok-injective, >>=-returned, Returns, wrapped-Returns,
  on_ok-Returns,
}
use ragivka.Tenant.{Ctx}
use ragivka.Knowledge.Retrieval.Embedder.{
  OllamaEmbedConfig, EmbedResponse, EmbedRequest, Post, authorization, all_dim, checked,
  read_response, embed_texts,
}

no_vectors : {A : Type 0} {text : String} {a : A} → ◌≢◌ {A = Result A} (err (other text)) (ok a)
no_vectors h = absurd (ground arith)

dims : {a b : Bool} → (a && not b) ≡ false → a ≡ true → b ≡ true
dims {a} {b} h e = ground arith

module _ {F : Type 0} (cfg : OllamaEmbedConfig) (post : Post)
    (unmarshal : String → Result (EmbedResponse F)) where
  abbrev HasDim : List (List F) → Type 0
  HasDim = All (λ v. length v ≡ cfg.expected_dim)

  abbrev Shaped : ℕ → List (List F) → Type 0
  Shaped wanted vs = (length vs ≡ wanted) × (0 < cfg.expected_dim → HasDim vs)

  all_dim-HasDim : (vs : List (List F)) → all_dim cfg post unmarshal vs ≡ true → HasDim vs
  unfolding all_dim
  all_dim-HasDim [] h = tt
  all_dim-HasDim (v ∷ rest) h = (ground arith, all_dim-HasDim rest (ground arith))

  checked-Shaped :
      (wanted : ℕ) (r : EmbedResponse F) {vs : List (List F)}
      → checked cfg post unmarshal wanted r ≡ ok vs
      → Shaped wanted vs
  unfolding checked
  checked-Shaped wanted r {vs} h = elim (Bool-cases (not (str_eq r.error ""))) [
    | inl e ↦ absurd (no_vectors (rw e at h))
    | inr e ↦ elim (Bool-cases (not (length r.embeddings == wanted))) [
      | inl f ↦ absurd (no_vectors (rw (e, f) at h))
      | inr f ↦
          elim (Bool-cases
            (ltb 0 cfg.expected_dim && not (all_dim cfg post unmarshal r.embeddings))) [
              | inl g ↦ absurd (no_vectors (rw (e, f, g) at h))
              | inr g ↦ subst (Shaped wanted) (ok-injective (rw (e, f, g) at h)) (
                ground arith,
                λ positive.
                    all_dim-HasDim r.embeddings (dims g (lt→ltb 0 cfg.expected_dim positive)),
              )
            ]
    ]
  ]

  read_response-Shaped :
      (wanted : ℕ) (resp : ℕ × String) {vs : List (List F)}
      → read_response cfg post unmarshal wanted resp ≡ ok vs
      → Shaped wanted vs
  unfolding read_response
  read_response-Shaped wanted resp {vs} h = elim (Bool-cases (not (resp.0 == 200))) [
    | inl e ↦ absurd (no_vectors (rw e at h))
    | inr e ↦
        let (r, _, same) =
          >>=-returned (checked cfg post unmarshal wanted)
            (wrapped "embedder: parse response" (unmarshal resp.1)) (rw e at h) in
        checked-Shaped wanted r same
  ]

  -- If the embedder returns vectors, there is one for each text, and with an expected dimension
  -- each of them has it, whatever the endpoint answers.
  pub embed_texts-shape :
      (ctx : Ctx) (texts : List String) (n : ℕ) {vs : List (List F)}
      → embed_texts cfg post unmarshal ctx texts n ≡ ok vs
      → (length vs ≡ length texts)
        × (0 < cfg.expected_dim → All (λ v. length v ≡ cfg.expected_dim) vs)
  unfolding embed_texts
  embed_texts-shape ctx [] n h = subst (Shaped 0) (ok-injective h) (refl, λ d. tt)
  embed_texts-shape ctx (text ∷ texts) n h =
      let (resp, _, same) =
        >>=-returned (read_response cfg post unmarshal (length (text ∷ texts)))
          (wrapped "embedder: http" (
            post ctx cfg.api_url (authorization cfg post unmarshal)
              (record { model = cfg.model; input = text ∷ texts; truncate = true }) n))
          h in
      read_response-Shaped (length (text ∷ texts)) resp same

  checked-Returns :
      (wanted : ℕ) (r : EmbedResponse F) → Returns (checked cfg post unmarshal wanted r)
  unfolding checked
  checked-Returns wanted r p never = absurd (ground arith)

  read_response-Returns :
      (wanted : ℕ) (resp : ℕ × String)
      → Returns (unmarshal resp.1)
      → Returns (read_response cfg post unmarshal wanted resp)
  unfolding read_response
  read_response-Returns wanted resp h p = elim (Bool-cases (not (resp.0 == 200))) [
    | inl e ↦ rw e (λ never. absurd (ground arith))
    | inr e ↦ rw e (
        on_ok-Returns (checked cfg post unmarshal wanted)
          (wrapped "embedder: parse response" (unmarshal resp.1))
          (wrapped-Returns "embedder: parse response" (unmarshal resp.1) h) (checked-Returns wanted)
          p)
  ]

  -- Only the post or the decoder could panic.
  pub embed_texts-Returns :
      ((ctx : Ctx) (url auth : String) (req : EmbedRequest) (n : ℕ)
        → Returns (post ctx url auth req n))
      → ((text : String) → Returns (unmarshal text))
      → (ctx : Ctx) (texts : List String) (n : ℕ)
      → Returns (embed_texts cfg post unmarshal ctx texts n)
  unfolding embed_texts
  embed_texts-Returns posts decodes ctx [] n p never = absurd (ground arith)
  embed_texts-Returns posts decodes ctx (text ∷ texts) n p never =
      on_ok-Returns (read_response cfg post unmarshal (length (text ∷ texts))) _
        (wrapped-Returns "embedder: http" _
          (posts ctx cfg.api_url (authorization cfg post unmarshal) _ n))
        (λ resp. read_response-Returns (length (text ∷ texts)) resp (decodes resp.1)) p never
