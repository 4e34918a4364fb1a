-- ===== src/Aicore.antt =====
-- pkg/aicore: requests to language models, the router with its fallback, and the prompt registry.
pub mod Types
pub mod Router
pub mod Ollama
pub mod Prompts
pub mod Sanitize
mod Tests
