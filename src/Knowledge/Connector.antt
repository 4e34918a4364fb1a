-- ===== src/Knowledge/Connector.antt =====
-- pkg/knowledge/ingestion/connector.go: the bytes of a document behind a URL that the object store
-- signs. The store and the HTTP client are parameters.
pub mod Reads
use ragivka.Prelude.{ℕ, ◌==◌, String, List, not, if◌then◌else◌}
use ragivka.Errors.{other}
use ragivka.Tenant.{Ctx}
use ragivka.World.{Exec, ◌>>=◌, pure, fail, context}

-- Five minutes, in seconds
abbrev url_ttl : ℕ
url_ttl = 300

abbrev pub Presign : Type 0
Presign = Ctx → String → ℕ → Exec String

-- A GET request: a status and the bytes of the body.
abbrev pub HttpGet : Type 0
HttpGet = Ctx → String → Exec (ℕ × List ℕ)

of_response : ℕ × List ℕ → Exec (List ℕ)
of_response resp = if not (resp.0 == 200) then fail (other "s3 connector: status") else pure resp.1

pub s3_connect : Presign → HttpGet → Ctx → String → Exec (List ℕ)
unfolding of_response
s3_connect presign http_get ctx key = do
  url ← context "s3 connector presign" (presign ctx key url_ttl)
  resp ← context "s3 connector download" (http_get ctx url)
  of_response resp
