-- ===== src/Aicore/Ollama.antt =====
-- pkg/aicore/ollama.go: a client over one POST to the chat endpoint of Ollama. The HTTP client and
-- the JSON decoder are parameters; the limit of tokens of a request is not sent.
use ragivka.Prelude.{ℕ, Bool, false, String, List, append, str_eq, not, ◌==◌, if◌then◌else◌}
use ragivka.Errors.{Result, ok, err, other, wrapped, on_ok}
use ragivka.Tenant.{Ctx}
use ragivka.Aicore.Types.{ChatMessage, GenerateRequest, GenerateResponse}
use ragivka.Aicore.Router.{LlmClient}

pub record OllamaConfig : Type 0 where
  pub api_url : String
  pub api_key : String
  pub model : String

-- ollamaReq
pub record ChatRequest : Type 0 where
  pub model : String
  pub messages : List ChatMessage
  pub stream : Bool
  pub format : String

-- ollamaResp
pub record ChatResponse : Type 0 where
  pub model : String
  pub message : ChatMessage
  pub prompt_eval_count : ℕ
  pub eval_count : ℕ
  pub error : String

-- What net/http answers to a POST: the URL, the Authorization header, the body, and how many calls
-- there were before; a status and the text of the response.
abbrev pub PostChat : Type 0
PostChat = Ctx → String → String → ChatRequest → ℕ → Result (ℕ × String)

module _ (cfg : OllamaConfig) (post : PostChat) (unmarshal : String → Result ChatResponse) where
  chat_authorization : String
  chat_authorization = if str_eq cfg.api_key "" then "" else append "Bearer " cfg.api_key

  abbrev chat_request : GenerateRequest → ChatRequest
  chat_request req = record {
    model = if str_eq req.model "" then cfg.model else req.model;
    messages = req.messages;
    stream = false;
    format = if req.force_json then "json" else "";
  }

  of_chat : ChatResponse → Result GenerateResponse
  of_chat r =
      if not (str_eq r.error "")
      then err (other "ollama: response error")
      else ok (record {
        content = r.message.content;
        model = r.model;
        input_tokens = r.prompt_eval_count;
        output_tokens = r.eval_count;
      })

  read_chat : ℕ × String → Result GenerateResponse
  unfolding of_chat
  read_chat resp =
      if not (resp.0 == 200)
      then err (other "ollama: status")
      else on_ok of_chat (wrapped "ollama: parse response" (unmarshal resp.1))

  pub ollama_client : LlmClient
  unfolding chat_authorization read_chat
  ollama_client ctx req n =
      on_ok read_chat
        (wrapped "ollama: http" (post ctx cfg.api_url chat_authorization (chat_request req) n))
