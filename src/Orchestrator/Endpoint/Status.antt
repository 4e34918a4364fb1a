-- ===== src/Orchestrator/Endpoint/Status.antt =====
-- When pkg/orchestrator/handler.go answers 202.
use ragivka.Prelude.{
  ℕ, ◌≡◌, ◌≢◌, refl, true, false, String, Option, none, some, str_eq, Bool-cases, Option-cases, inl,
  inr, arith,
}
use ragivka.Errors.{Result, ok, err, panic}
use ragivka.Tenant.{Ctx, Uuid}
use ragivka.Orchestrator.Endpoint.{
  HttpRequest, extract_session_id, status_of, with_message, with_session, serve,
}
use ragivka.World.{World, Exec}

bad_request : ◌≢◌ {A = Result ℕ} (ok 400) (ok 202)
bad_request h = absurd (ground arith)

status_of-accepted : (r : Result (Unit {0})) (w : World) → (status_of r w).0 ≡ ok 202 → r ≡ ok tt
unfolding status_of
status_of-accepted (ok u) w h = refl
status_of-accepted (err e) w h = absurd (ground arith)
status_of-accepted (panic p) w h = absurd (ground arith)

status_of-same : (r : Result (Unit {0})) (w : World) → (status_of r w).1 ≡ w
unfolding status_of
status_of-same (ok u) w = refl
status_of-same (err e) w = refl
status_of-same (panic p) w = refl

module _ ⦃uuid : Uuid⦄ (run : Ctx → ℕ → String → Exec (Unit {0}))
    (decode : ℕ → String → Option String) where
  with_message-accepted :
      (ctx : Ctx) (id : ℕ) (text : Option String) (w : World)
      → (with_message run decode ctx id text w).0 ≡ ok 202
      → (t : String) × (text ≡ some t)
        × (str_eq t "" ≡ false)
        × ((run ctx id t w).0 ≡ ok tt)
        × ((with_message run decode ctx id text w).1 ≡ (run ctx id t w).1)
  unfolding with_message
  with_message-accepted ctx id none w h = absurd (bad_request h)
  with_message-accepted ctx id (some t) w h = elim (Bool-cases (str_eq t "")) [
    | inl e ↦ absurd (bad_request (rw e at h))
    | inr e ↦
        let out = run ctx id t w in
        (t, refl, e, status_of-accepted out.0 out.1 (rw e at h), rw e (status_of-same out.0 out.1))
  ]

  -- If the endpoint answers 202, then the request was a POST, the path holds a session's UUID, the
  -- body a message that is not empty, and Run ended without an error on them and left this world.
  pub serve-accepted :
      (ctx : Ctx) (req : HttpRequest) (w : World)
      → (serve run decode ctx req w).0 ≡ ok 202
      → (str_eq req.method "POST" ≡ true)
        × ((id : ℕ) × (text : String) × (uuid.parse (extract_session_id req.path) ≡ some id)
            × (decode 1048576 req.body ≡ some text)
            × (str_eq text "" ≡ false)
            × ((run ctx id text w).0 ≡ ok tt)
            × ((serve run decode ctx req w).1 ≡ (run ctx id text w).1))
  unfolding serve with_session
  serve-accepted ctx req w h = elim (Bool-cases (str_eq req.method "POST")) [
    | inr e ↦ let never : ◌≡◌ {A = Result ℕ} (ok 405) (ok 202) = rw e at h in absurd (ground arith)
    | inl e ↦ elim (Option-cases (uuid.parse (extract_session_id req.path))) [
      | inl gone ↦ absurd (bad_request (rw (e, gone) at h))
      | inr (id, ei) ↦
          let (text, et, full, done, same) =
            with_message-accepted ctx id (decode 1048576 req.body) w (rw (e, ei) at h) in
          (e, (id, text, ei, et, full, done, rw (e, ei) same))
    ]
  ]
