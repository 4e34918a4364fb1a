-- ===== src/Knowledge/Retrieval/Embedder.antt =====
-- pkg/knowledge/ingestion/embedder.go: the checks around a request to the embedding endpoint.
pub mod Shape
use ragivka.Prelude.{
  ℕ, Bool, true, false, ◌&&◌, not, String, List, [], ◌∷◌, length, ltb, ◌==◌, str_eq, if◌then◌else◌,
  append, [],
}
use ragivka.Errors
use ragivka.Errors.{Err, Result, ok, err, panic, other, wrapped, on_ok}
use ragivka.Tenant.{Ctx}

pub record OllamaEmbedConfig : Type 0 where
  pub api_url : String
  pub api_key : String
  pub model : String
  pub expected_dim : ℕ

pub record EmbedRequest : Type 0 where
  pub model : String
  pub input : List String
  pub truncate : Bool

pub record EmbedResponse (F : Type 0) : Type 0 where
  pub embeddings : List (List F)
  pub error : String

-- What net/http answers to a POST: the URL, the Authorization header, the body, and how many calls
-- there were before; a status and the text of the response.
abbrev pub Post : Type 0
Post = Ctx → String → String → EmbedRequest → ℕ → Result (ℕ × String)

module _ {F : Type 0} (cfg : OllamaEmbedConfig) (post : Post)
    (unmarshal : String → Result (EmbedResponse F)) where
  authorization : String
  authorization = if str_eq cfg.api_key "" then "" else append "Bearer " cfg.api_key

  all_dim : List (List F) → Bool
  all_dim [] = true
  all_dim (v ∷ rest) = length v == cfg.expected_dim && all_dim rest

  -- The count and, if one is expected, the dimensions.
  checked : ℕ → EmbedResponse F → Result (List (List F))
  unfolding all_dim
  checked wanted r =
      if not (str_eq r.error "")
      then err (other "embedder: response error")
      else (if not (length r.embeddings == wanted)
          then err (other "embedder: unexpected number of embeddings")
          else (if ltb 0 cfg.expected_dim && not (all_dim r.embeddings)
              then err (other "embedder: unexpected dimension")
              else ok r.embeddings))

  read_response : ℕ → ℕ × String → Result (List (List F))
  unfolding checked
  read_response wanted resp =
      if not (resp.0 == 200)
      then err (other "embedder: status")
      else on_ok (checked wanted) (wrapped "embedder: parse response" (unmarshal resp.1))

  unfoldable pub embed_texts : Ctx → List String → ℕ → Result (List (List F))
  unfolding authorization read_response
  embed_texts ctx [] n = ok []
  embed_texts ctx (text ∷ texts) n = on_ok (read_response (length (text ∷ texts))) (
      wrapped "embedder: http" (
        post ctx cfg.api_url authorization
          (record { model = cfg.model; input = text ∷ texts; truncate = true }) n))
