-- ===== src/Orchestrator/Endpoint/Isolation.antt =====
-- What the endpoint of pkg/orchestrator/handler.go leaves as it was.
use ragivka.Prelude.{ℕ, refl, Bool-cases, inl, inr, String, str_eq, not, Option, none, some}
use ragivka.Errors.{Result, ok, err, panic}
use ragivka.Tenant.{Ctx, Uuid}
use ragivka.Orchestrator.Endpoint.{
  HttpRequest, status_of, with_message, with_session, serve, extract_session_id,
}
use ragivka.World.{World, Exec, attempt}
use ragivka.World.Keeps.{Keeps, >>=-Keeps}

module _ {S : Type 0} (view : World → S) where
  status_of-Keeps : (r : Result (Unit {0})) → Keeps view (status_of r)
  unfolding status_of
  status_of-Keeps (ok u) w = refl
  status_of-Keeps (err e) w = refl
  status_of-Keeps (panic p) w = refl

  module _ ⦃uuid : Uuid⦄ (run : Ctx → ℕ → String → Exec (Unit {0}))
      (decode : ℕ → String → Option String) (ctx : Ctx)
      (runs : (id : ℕ) (text : String) → Keeps view (run ctx id text)) where
    with_message-Keeps :
        (id : ℕ) (message : Option String) → Keeps view (with_message run decode ctx id message)
    unfolding with_message
    with_message-Keeps id none w = refl
    with_message-Keeps id (some text) w = elim (Bool-cases (str_eq text "")) [
      | inl empty ↦ rw empty refl
      | inr full ↦
          rw full
            (>>=-Keeps view (attempt (run ctx id text)) status_of (runs id text) status_of-Keeps w)
    ]

    with_session-Keeps :
        (body : String) (id : Option ℕ) → Keeps view (with_session run decode ctx body id)
    unfolding with_session
    with_session-Keeps body none w = refl
    with_session-Keeps body (some id) w = with_message-Keeps id (decode 1048576 body) w

    -- What a run leaves as it was the endpoint leaves too.
    pub serve-Keeps : (req : HttpRequest) → Keeps view (serve run decode ctx req)
    unfolding serve
    serve-Keeps req w = elim (Bool-cases (not (str_eq req.method "POST"))) [
      | inl other ↦ rw other refl
      | inr post ↦
          rw post (with_session-Keeps req.body (uuid.parse (extract_session_id req.path)) w)
    ]
