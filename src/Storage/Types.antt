-- ===== src/Storage/Types.antt =====
-- pkg/storage/types.go: the row of an artifact. The S3 client is left out.
use ragivka.Prelude.{ℕ, String}

pub record Artifact : Type 0 where
  pub id : ℕ
  pub tenant_id : ℕ
  pub session_id : ℕ
  pub kind : String  -- the column `type`
  pub s3_key : String
  pub size_bytes : ℕ
  pub created_at : ℕ
