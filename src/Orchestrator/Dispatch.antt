-- ===== src/Orchestrator/Dispatch.antt =====
-- pkg/orchestrator/orchestrator.go: the handler of a session's tier.
pub mod Tiers
pub mod Isolation
use ragivka.Prelude.{ℕ, String, if◌then◌else◌, str_eq, ◌||◌}
use ragivka.Errors.{Result, ok, err, other}
use ragivka.Tenant.{Ctx, Uuid}
use ragivka.Orchestrator.Parts.{session_ctx}
use ragivka.Runtime.Types.{Session}
use ragivka.Runtime.Sessions.{get_by_id}
use ragivka.World.{Exec, ◌>>=◌, lift, context}

abbrev pub Handler : Type 0
Handler = Ctx → Session → String → Exec (Unit {0})

pub record TieredOrchestrator : Type 0 where
  pub l0 : Handler
  pub l1 : Handler
  pub l2 : Handler

-- L3 is served as L2.
pub handler_for : TieredOrchestrator → String → Result Handler
handler_for o tier =
    if str_eq tier "L0"
    then ok o.l0
    else (if str_eq tier "L1"
        then ok o.l1
        else (if str_eq tier "L2" || str_eq tier "L3"
            then ok o.l2
            else err (other "orchestrator: unknown tier")))

unfoldable pub run : ⦃uuid : Uuid⦄ → TieredOrchestrator → Ctx → ℕ → String → Exec (Unit {0})
unfolding handler_for
run o ctx id text = do
  session ← context "orchestrator: load session" (get_by_id ctx id)
  handler ← lift (handler_for o session.tier)
  handler (session_ctx ctx session) session text
