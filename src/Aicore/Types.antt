-- ===== src/Aicore/Types.antt =====
-- pkg/aicore/types.go. The temperature, which the program never sets, is left out.
use ragivka.Prelude.{ℕ, String, Bool, List}

pub record ChatMessage : Type 0 where
  pub role : String
  pub content : String

pub data TaskKind : Type 0 where
  untasked task_classification task_extraction task_reasoning task_generation : TaskKind

pub record GenerateRequest : Type 0 where
  pub model : String
  pub messages : List ChatMessage
  pub max_tokens : ℕ
  pub force_json : Bool
  pub task_hint : TaskKind

pub record GenerateResponse : Type 0 where
  pub content : String
  pub model : String
  pub input_tokens : ℕ
  pub output_tokens : ℕ

-- A row of prompt_version.
pub record PromptVersion : Type 0 where
  pub tenant_id : ℕ
  pub name : String
  pub version : ℕ
  pub content : String
