-- ===== src/Middleware/RequestId.antt =====
-- pkg/middleware/requestid.go, and of errenvelope.go the id that an error's answer carries. The
-- response header is left out.
use ragivka.Prelude.{String, Option, none, some, str_eq, if◌then◌else◌}
use ragivka.Tenant.{Ctx}
use ragivka.Middleware.Auth.{Handler}

-- RequestID, on the X-Request-ID header and what uuid.New() gives
unfoldable pub request_id : String → String → Handler → Handler
request_id fresh header next ctx =
    next (record ctx { request_id = some (if str_eq header "" then fresh else header) })

id_or_empty : Option String → String
id_or_empty none = ""
id_or_empty (some id) = id

pub request_id_from_context : Ctx → String
unfolding id_or_empty
request_id_from_context ctx = id_or_empty ctx.request_id

pub record ErrorBody : Type 0 where
  pub code : String
  pub message : String
  pub request_id : String

-- WriteError's envelope
pub error_envelope : Ctx → String → String → ErrorBody
error_envelope ctx code message = record {
  code = code;
  message = message;
  request_id = request_id_from_context ctx;
}
