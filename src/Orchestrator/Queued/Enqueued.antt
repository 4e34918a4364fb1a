-- ===== src/Orchestrator/Queued/Enqueued.antt =====
-- What pkg/orchestrator/l2.go has done when it has enqueued a job.
use ragivka.Prelude.{ℕ, ◌≡◌, ◌≢◌, refl, String, ◌∷◌, ap, ◌⊎◌, inl, inr}
use ragivka.Errors.{ok, failed, panicked, Result-Cases, Cases}
use ragivka.Tenant.{Ctx, Uuid, tenant_id_from_ctx-with_tenant_id}
use ragivka.Orchestrator.Parts.{user_message, session_ctx}
use ragivka.Orchestrator.Queued.{JobEnqueuer, enqueue, job_args, handle_l2}
use ragivka.Runtime.Types.{Session, Message}
use ragivka.Runtime.Messages.{create_message, filled_message}
use ragivka.Runtime.Messages.Insertion.{create_message-Keeps, create_message-inserted}
use ragivka.World.{World, Call}

module _ ⦃uuid : Uuid⦄ (queue : JobEnqueuer) where
  -- The message is stored, and its job is enqueued, whatever the queue answers.
  abbrev pub Enqueued : ℕ → Session → String → World → World → Type 0
  Enqueued fresh session text w v =
      (m : Message) × (m ≡ filled_message session.tenant_id fresh (user_message fresh session text))
      × (v.messages ≡ (record m { created_at = w.now } ∷ w.messages))
      × (v.calls ≡ (Call.enqueue (job_args session m) ∷ w.calls))

  handle_l2-cases :
      (fresh : ℕ) (ctx : Ctx) (session : Session) (text : String) (w : World)
      → Enqueued fresh session text w (handle_l2 queue fresh ctx session text w).1
        ⊎ (((handle_l2 queue fresh ctx session text w).1.calls ≡ w.calls)
            × ((handle_l2 queue fresh ctx session text w).0 ≢ ok tt))
  unfolding handle_l2 enqueue
  handle_l2-cases fresh ctx session text w =
      let tctx = session_ctx ctx session in
      let row = user_message fresh session text in
      let et = tenant_id_from_ctx-with_tenant_id ctx session.tenant_id in
      let saved = create_message tctx fresh row w in
      let kept =
        create_message-Keeps tctx (λ v. v.calls) (λ v fs. refl) fresh row (λ v ms. refl) w in
      elim (Result-Cases saved.0) [
        | Cases.is_ok m e ↦
            let (same, stored) =
              create_message-inserted tctx fresh session.tenant_id row m w et e in
            inl
              (m, same, rw e stored, rw e (ap (λ cs. Call.enqueue (job_args session m) ∷ cs) kept))
        | Cases.is_err x e ↦ rw e (inr (kept, failed))
        | Cases.is_panic p e ↦ rw e (inr (kept, panicked))
      ]

  -- If the handler makes a call, then it has stored the user's message, and the call is the one
  -- that enqueues the job of that message, whatever the queue answers.
  pub handle_l2-Enqueued :
      (fresh : ℕ) (ctx : Ctx) (session : Session) (text : String) (w : World)
      → (handle_l2 queue fresh ctx session text w).1.calls ≢ w.calls
      → Enqueued fresh session text w (handle_l2 queue fresh ctx session text w).1
  handle_l2-Enqueued fresh ctx session text w h = elim (handle_l2-cases fresh ctx session text w) [
    | inl done ↦ done
    | inr (quiet, bad) ↦ absurd (h quiet)
  ]

  -- So it has if it ends without an error.
  pub handle_l2-done :
      (fresh : ℕ) (ctx : Ctx) (session : Session) (text : String) (w : World)
      → (handle_l2 queue fresh ctx session text w).0 ≡ ok tt
      → Enqueued fresh session text w (handle_l2 queue fresh ctx session text w).1
  handle_l2-done fresh ctx session text w h = elim (handle_l2-cases fresh ctx session text w) [
    | inl done ↦ done
    | inr (quiet, bad) ↦ absurd (bad h)
  ]
