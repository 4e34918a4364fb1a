-- ===== src/Knowledge/Connector/Reads.antt =====
-- What the connector of pkg/knowledge/ingestion/connector.go leaves as it was.
use ragivka.Prelude.{ℕ, ◌==◌, refl, not, Bool-cases, inl, inr, String, List}
use ragivka.Tenant.{Ctx}
use ragivka.Knowledge.Connector.{Presign, HttpGet, url_ttl, of_response, s3_connect}
use ragivka.World.{World, context}
use ragivka.World.Keeps.{Keeps, >>=-Keeps}

module _ {S : Type 0} (view : World → S) where
  of_response-Keeps : (resp : ℕ × List ℕ) → Keeps view (of_response resp)
  unfolding of_response
  of_response-Keeps resp w = elim (Bool-cases (not (resp.0 == 200))) [
    | inl bad ↦ rw bad refl
    | inr good ↦ rw good refl
  ]

  -- What the store and the HTTP client leave.
  pub s3_connect-Keeps :
      (presign : Presign) (http_get : HttpGet)
      → ((ctx : Ctx) (key : String) (ttl : ℕ) → Keeps view (presign ctx key ttl))
      → ((ctx : Ctx) (url : String) → Keeps view (http_get ctx url))
      → (ctx : Ctx) (key : String) → Keeps view (s3_connect presign http_get ctx key)
  unfolding s3_connect
  s3_connect-Keeps presign http_get signs gets ctx key =
      >>=-Keeps view (context "s3 connector presign" (presign ctx key url_ttl)) _
        (signs ctx key url_ttl)
        λ url.
          >>=-Keeps view (context "s3 connector download" (http_get ctx url)) of_response
            (gets ctx url) of_response-Keeps
