-- ===== src/Orchestrator/Endpoint.antt =====
-- pkg/orchestrator/handler.go: POST /v1/sessions/{id}/messages.
pub mod Status
pub mod Isolation
use ragivka.Prelude.{
  ℕ, Bool, true, false, ◌&&◌, ◌||◌, String, Option, none, some, List, [], ◌∷◌, str_eq,
  if◌then◌else◌, not,
}
use ragivka.Errors.{Err, Result, ok, err, panic}
use ragivka.Paths.{path_parts}
use ragivka.Tenant.{Ctx, Uuid}
use ragivka.World.{Exec, ◌>>=◌, pure, lift, attempt}

pub record HttpRequest : Type 0 where
  pub method : String
  pub path : String
  pub body : String

-- ["v1", "sessions", "<uuid>", "messages"]
session_part : List String → String
session_part (v ∷ s ∷ id ∷ m ∷ []) =
    if str_eq v "v1" && str_eq s "sessions" && str_eq m "messages" then id else ""
session_part _ = ""

unfoldable pub extract_session_id : String → String
unfolding session_part
extract_session_id path = session_part (path_parts path)

-- The status for what Run came back with.
status_of : Result (Unit {0}) → Exec ℕ
status_of (ok _) = pure 202
status_of (err e) = pure 500
status_of (panic p) = lift (panic p)

module _ ⦃uuid : Uuid⦄ (run : Ctx → ℕ → String → Exec (Unit {0}))
    (decode : ℕ → String → Option String) where
  with_message : Ctx → ℕ → Option String → Exec ℕ
  unfolding status_of
  with_message ctx id none = pure 400
  with_message ctx id (some text) =
      if str_eq text "" then pure 400 else (do r ← attempt (run ctx id text); status_of r)

  with_session : Ctx → String → Option ℕ → Exec ℕ
  unfolding with_message
  with_session ctx body none = pure 400
  with_session ctx body (some id) = with_message ctx id (decode 1048576 body)

  -- The JSON decoder reads at most 1 MiB of the body.
  unfoldable pub serve : Ctx → HttpRequest → Exec ℕ
  unfolding with_session
  serve ctx req =
      if not (str_eq req.method "POST")
      then pure 405
      else with_session ctx req.body (uuid.parse (extract_session_id req.path))
