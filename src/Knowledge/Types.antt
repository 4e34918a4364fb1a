-- ===== src/Knowledge/Types.antt =====
-- pkg/knowledge/types.go, as the tables hold the rows.
use ragivka.Prelude.{ℕ, String}

pub data DocumentStatus : Type 0 where
  pending processing ready failed : DocumentStatus

pub record Document : Type 0 where
  pub id : ℕ
  pub tenant_id : ℕ
  pub doc_type : String
  pub filename : String
  pub s3_key : String
  pub size_bytes : ℕ
  pub status : DocumentStatus
  pub error_msg : String
  pub created_at : ℕ
  pub updated_at : ℕ

-- The embedding is the text of the vector literal that the row was written from.
pub record ChunkRow : Type 0 where
  pub id : ℕ
  pub tenant_id : ℕ
  pub document_id : ℕ
  pub content : String
  pub token_count : ℕ
  pub chunk_index : ℕ
  pub embedding : String
