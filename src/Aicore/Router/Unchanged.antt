-- ===== src/Aicore/Router/Unchanged.antt =====
-- What the router of pkg/aicore/router.go leaves as it was.
use ragivka.Prelude.{◌≡◌, refl, ◌∙◌, ◌∷◌, Bool-cases, inl, inr}
use ragivka.Errors.{Err, Result, ok, err, panic}
use ragivka.Tenant.{Ctx}
use ragivka.Aicore.Types.{GenerateRequest, GenerateResponse}
use ragivka.Aicore.Router.{
  LlmClient, RouterPolicy, ask, with_model, both, has_fallback, fall_back, or_fallback, generate,
}
use ragivka.World.{World, Call}
use ragivka.World.Keeps.{Keeps}

module _ {S : Type 0} (view : World → S)
    (apart : (w : World) (req : GenerateRequest)
      → view (record w { calls = Call.generate req ∷ w.calls }) ≡ view w)
    (client : LlmClient) (policy : RouterPolicy) (ctx : Ctx) where
  both-Keeps : (first : Err) (r : Result GenerateResponse) → Keeps view (both first r)
  unfolding both
  both-Keeps first (ok resp) w = refl
  both-Keeps first (err e) w = refl
  both-Keeps first (panic p) w = refl

  or_fallback-Keeps :
      (req : GenerateRequest) (r : Result GenerateResponse)
      → Keeps view (or_fallback client policy ctx req r)
  unfolding or_fallback fall_back ask
  or_fallback-Keeps req (ok resp) w = refl
  or_fallback-Keeps req (err e) w = elim (Bool-cases (has_fallback policy req)) [
    | inl b ↦ rw b (both-Keeps e _ _ ∙ apart w _)
    | inr b ↦ rw b refl
  ]
  or_fallback-Keeps req (panic p) w = refl

  pub generate-Keeps : (req : GenerateRequest) → Keeps view (generate client policy ctx req)
  unfolding generate ask
  generate-Keeps req w = or_fallback-Keeps (with_model policy req) _ _ ∙ apart w _
