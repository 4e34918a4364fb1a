-- ===== src/Orchestrator/Grounded/Trust.antt =====
-- What a model's response must say before pkg/orchestrator/l1.go shows it.
use ragivka.Prelude.{
  ℕ, ◌≡◌, ◌≢◌, refl, sym, ◌∙◌, ap, false, Option, none, some, List, ◌∷◌, arith, Bool-cases, inl,
  inr, Option-cases, some-eq_some,
}
use ragivka.Errors.{Result, ok, Result-Cases, Cases, ok-injective}
use ragivka.Tenant.{Ctx, Uuid, tenant_id_from_ctx-with_tenant_id}
use ragivka.Aicore.Types.{GenerateResponse}
use ragivka.Aicore.Router.{LlmClient, RouterPolicy}
use ragivka.Knowledge.Retrieval.{RankedChunk, Retriever}
use ragivka.Orchestrator.Parts.{new_message, session_ctx}
use ragivka.Orchestrator.Grounded.{
  StructuredAnswer, Decoder, gated, verdict, chunk_ids, escalate, conclude, settle,
}
use ragivka.Runtime.Fsm.{waiting_for_human}
use ragivka.Runtime.Types.{Session, Message}
use ragivka.Runtime.Sessions.{transition}
use ragivka.Runtime.Sessions.Calls.{transition-Keeps}
use ragivka.Runtime.Messages.{create_message}
use ragivka.Runtime.Messages.Insertion.{create_message-inserted, create_message-refused}
use ragivka.Tools.Guards.{Floats, HitlGate, evaluate}
use ragivka.World.{World}
use ragivka.World.Keeps.{Keeps}

module _ ⦃floats : Floats⦄ (gate : HitlGate) where
  -- The gate lets the answer pass, and the model asks for no human.
  abbrev pub Passes : StructuredAnswer → Type 0
  Passes a = (floats.less a.confidence gate.threshold ≡ false) × (a.requires_human ≡ false)

  hidden :
      {a : StructuredAnswer} → ◌≢◌ {A = Result (Option StructuredAnswer)} (ok none) (ok (some a))
  hidden h = absurd (ground arith)

  shown :
      {a b : StructuredAnswer}
      → ◌≡◌ {A = Result (Option StructuredAnswer)} (ok (some b)) (ok (some a))
      → b ≡ a
  shown h = some-eq_some (ok-injective h)

  verdict-shown :
      (parsed : Option StructuredAnswer) (a : StructuredAnswer)
      → verdict gate parsed ≡ ok (some a)
      → (parsed ≡ some a) × Passes a
  unfolding verdict gated evaluate
  verdict-shown none a h = absurd (ground arith)
  verdict-shown (some b) a h = elim (Bool-cases (floats.less b.confidence gate.threshold)) [
    | inl low ↦ absurd (hidden (rw low at h))
    | inr high ↦ elim (Bool-cases b.requires_human) [
      | inl asks ↦ absurd (hidden (rw (high, asks) at h))
      | inr plain ↦
          let passed : gated (evaluate gate b.confidence) b ≡ ok (some b) = rw (high, plain) refl in
          let same : b ≡ a = shown (sym passed ∙ h) in (rw same refl, rw (← same) (high, plain))
    ]
  ]

module _ ⦃uuid : Uuid⦄ ⦃floats : Floats⦄ (client : LlmClient) (policy : RouterPolicy)
    (retriever : Retriever) (gate : HitlGate) (decode : Decoder) (ctx : Ctx)
    (session : Session) where
  -- The response was parsed, passed, and was stored as the assistant's message.
  abbrev pub Shown : GenerateResponse → List Message → List Message → Type 0
  Shown resp before after =
      (a : StructuredAnswer) × (m : Message) × (decode resp.content ≡ some a)
      × Passes gate a
      × (m.role ≡ "assistant")
      × (m.content ≡ a.answer)
      × (after ≡ (m ∷ before))

  abbrev tctx : Ctx
  tctx = session_ctx ctx session

  escalate-Keeps : Keeps (λ v. v.messages) (escalate tctx session)
  unfolding escalate
  escalate-Keeps w =
      let kept =
        transition-Keeps tctx (λ v. v.messages) session.id session.state waiting_for_human
          session.version (λ v fs. refl) (λ v ss. refl) w in
      elim (Result-Cases
        (transition tctx session.id session.state waiting_for_human session.version w).0) [
          | Cases.is_ok n e ↦ rw e kept
          | Cases.is_err x e ↦ rw e kept
          | Cases.is_panic p e ↦ rw e kept
        ]

  pub settle-Shown :
      (fresh : ℕ) (chunks : List RankedChunk) (resp : GenerateResponse) (w : World)
      → (settle client policy retriever gate decode fresh tctx session chunks resp w).1.messages
        ≢ w.messages
      → Shown resp w.messages
          (settle client policy retriever gate decode fresh tctx session chunks resp w).1.messages
  unfolding settle conclude
  settle-Shown fresh chunks resp w h = elim (Result-Cases (verdict gate (decode resp.content))) [
    | Cases.is_err x e ↦ absurd (h (rw e refl))
    | Cases.is_panic p e ↦ absurd (h (rw e refl))
    | Cases.is_ok visible e ↦ elim (Option-cases visible) [
      | inl asks ↦ absurd (h (rw (e, asks) (escalate-Keeps w)))
      | inr (a, ea) ↦
          let (parsed, passes) = verdict-shown gate (decode resp.content) a (e ∙ ap ok ea) in
          let row = new_message fresh session "assistant" a.answer (chunk_ids chunks) in
          let et = tenant_id_from_ctx-with_tenant_id ctx session.tenant_id in
          elim (Result-Cases (create_message tctx fresh row w).0) [
            | Cases.is_err x em ↦ absurd (
                h (
                  rw (e, ea, em)
                    (create_message-refused tctx fresh session.tenant_id row w et (λ n ok_n. cc))))
            | Cases.is_panic p em ↦ absurd (
                h (
                  rw (e, ea, em)
                    (create_message-refused tctx fresh session.tenant_id row w et (λ n ok_n. cc))))
            | Cases.is_ok n em ↦
                let (same, stored) =
                  create_message-inserted tctx fresh session.tenant_id row n w et em in
                (
                  a,
                  record n { created_at = w.now },
                  parsed,
                  passes,
                  rw same refl,
                  rw same refl,
                  rw (e, ea, em) stored,
                )
          ]
    ]
  ]
