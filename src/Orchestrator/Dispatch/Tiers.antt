-- ===== src/Orchestrator/Dispatch/Tiers.antt =====
-- Which handler pkg/orchestrator/orchestrator.go runs for the rows of the session table.
use ragivka.Prelude.{ℕ, ◌≡◌, refl, ◌||◌, Bool-cases, inl, inr, str_eq, String, true, eq_iff, arith}
use ragivka.Errors.{ok}
use ragivka.Tenant.{Ctx, Uuid}
use ragivka.Orchestrator.Parts.{session_ctx}
use ragivka.Orchestrator.Dispatch.{Handler, TieredOrchestrator, handler_for, run}
use ragivka.Runtime.Types.{Session}
use ragivka.Runtime.Sessions.{get_by_id, known_tier}
use ragivka.World.{World}

known_tier-handler :
    (o : TieredOrchestrator) (tier : String)
    → known_tier tier ≡ true
    → (h : Handler) × (handler_for o tier ≡ ok h)
unfolding known_tier handler_for
known_tier-handler o tier h = elim (Bool-cases (str_eq tier "L0")) [
  | inl e0 ↦ rw e0 (o.l0, refl)
  | inr e0 ↦ elim (Bool-cases (str_eq tier "L1")) [
    | inl e1 ↦ rw (e0, e1) (o.l1, refl)
    | inr e1 ↦ elim (Bool-cases (str_eq tier "L2" || str_eq tier "L3")) [
      | inl e2 ↦ rw (e0, e1, e2) (o.l2, refl)
      | inr e2 ↦ absurd (ground arith)
    ]
  ]
]

-- The tiers of the queue.
abbrev pub IsQueued : Session → Type 0
IsQueued s = (str_eq s.tier "L2" || str_eq s.tier "L3") ≡ true

pub handler_for-queued :
    (o : TieredOrchestrator) (s : Session) → IsQueued s → handler_for o s.tier ≡ ok o.l2
unfolding handler_for
handler_for-queued o s h = elim (Bool-cases (str_eq s.tier "L2")) [
  | inl e ↦ rw ((eq_iff s.tier "L2").0 e) refl
  | inr e ↦ let l3 : str_eq s.tier "L3" ≡ true = rw e at h in rw ((eq_iff s.tier "L3").0 l3) refl
]

-- If GetByID finds the session and its tier is one that the session table admits, then Run picks
-- a handler, and does what that handler does under the session's tenant.
pub run-handler :
    ⦃uuid : Uuid⦄ (o : TieredOrchestrator) (ctx : Ctx) (id : ℕ) (text : String) (s : Session)
    (w v : World)
    → get_by_id ctx id w ≡ (ok s, v)
    → known_tier s.tier ≡ true
    → (h : Handler) × (handler_for o s.tier ≡ ok h)
      × (run o ctx id text w ≡ h (session_ctx ctx s) s text v)
unfolding run
run-handler o ctx id text s w v found known =
    let (h, eh) = known_tier-handler o s.tier known in (h, eh, rw found (rw eh refl))
