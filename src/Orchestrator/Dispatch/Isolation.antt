-- ===== src/Orchestrator/Dispatch/Isolation.antt =====
-- What a run of pkg/orchestrator/orchestrator.go leaves of the other tenants.
use mathlib.Core.Path.{subst}
use ragivka.Prelude.{
  ℕ, ◌≡◌, ◌≢◌, refl, sym, ◌∙◌, ap, Bool-cases, inl, inr, String, str_eq, ◌||◌, arith,
}
use ragivka.Errors.{Result, ok, err, other, Result-Cases, Cases, ok-injective}
use ragivka.Tenant.{Ctx, Uuid, tenant_id_from_ctx}
use ragivka.Orchestrator.Parts.{session_ctx}
use ragivka.Orchestrator.Dispatch.{Handler, TieredOrchestrator, handler_for, run}
use ragivka.Runtime.Types.{Session}
use ragivka.Runtime.Sessions.{get_by_id, has_key}
use ragivka.Runtime.Sessions.Calls.{get_by_id-Keeps}
use ragivka.Runtime.Sessions.Queries.{get_by_id-found, find_session-holds, has_key-tenant}
use ragivka.Runtime.Isolation.{seen_by}
use ragivka.World.Keeps.{Keeps}

-- A handler leaves a tenant alone whose session it is not given.
abbrev pub Isolates : ℕ → Handler → Type 0
Isolates t h =
    (ctx : Ctx) (session : Session) (text : String)
    → session.tenant_id ≢ t
    → Keeps (seen_by t) (h ctx session text)

unknown_tier : {text : String} {h : Handler} → ◌≢◌ {A = Result Handler} (err (other text)) (ok h)
unknown_tier never = absurd (ground arith)

handler_for-one :
    (P : Handler → Type 0) (o : TieredOrchestrator) (tier : String) {h : Handler}
    → P o.l0
    → P o.l1
    → P o.l2
    → handler_for o tier ≡ ok h
    → P h
unfolding handler_for
handler_for-one P o tier p q r e = elim (Bool-cases (str_eq tier "L0")) [
  | inl a ↦ subst P (ok-injective (rw a at e)) p
  | inr a ↦ elim (Bool-cases (str_eq tier "L1")) [
    | inl b ↦ subst P (ok-injective (rw (a, b) at e)) q
    | inr b ↦ elim (Bool-cases (str_eq tier "L2" || str_eq tier "L3")) [
      | inl c ↦ subst P (ok-injective (rw (a, b, c) at e)) r
      | inr c ↦ absurd (unknown_tier (rw (a, b, c) at e))
    ]
  ]
]

-- A run leaves what every tenant but its context's sees, whatever it comes back with, provided that
-- each handler does so for every tenant but its session's.
pub run-isolation :
    ⦃uuid : Uuid⦄ (o : TieredOrchestrator) (t : ℕ)
    → Isolates t o.l0
    → Isolates t o.l1
    → Isolates t o.l2
    → (ctx : Ctx) (id : ℕ) (text : String) → tenant_id_from_ctx ctx ≢ ok t
    → Keeps (seen_by t) (run o ctx id text)
unfolding run
run-isolation o t p q r ctx id text other_tenant w =
    let loaded = get_by_id ctx id w in
    let kept = get_by_id-Keeps ctx (seen_by t) id (λ v fs. refl) w in
    elim (Result-Cases loaded.0) [
      | Cases.is_err x e ↦ rw e kept
      | Cases.is_panic x e ↦ rw e kept
      | Cases.is_ok s e ↦
          let (tenant, et, found, _) = get_by_id-found ctx w id (ap (λ out. (out, loaded.1)) e) in
          let mine =
            has_key-tenant id tenant s (find_session-holds (has_key id tenant) w.sessions found) in
          let apart : s.tenant_id ≢ t = λ same. other_tenant (et ∙ ap ok (sym mine ∙ same)) in
          elim (Result-Cases (handler_for o s.tier)) [
            | Cases.is_err x f ↦ rw (e, f) kept
            | Cases.is_panic x f ↦ rw (e, f) kept
            | Cases.is_ok h f ↦
                rw (e, f)
                  (handler_for-one (Isolates t) o s.tier p q r f (session_ctx ctx s) s text apart
                      loaded.1
                    ∙ kept)
          ]
    ]
