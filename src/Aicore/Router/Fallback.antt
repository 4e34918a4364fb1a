-- ===== src/Aicore/Router/Fallback.antt =====
-- What the router of pkg/aicore/router.go asks, and what it answers.
use mathlib.Core.Path.{subst}
use ragivka.Prelude.{
  suc, ap, ◌≡◌, ◌≢◌, refl, ◌⊎◌, inl, inr, ◌∷◌, length, str_eq, eq_iff, arith, Bool-cases, none,
  some, String, Option-cases, true, false,
}
use ragivka.Errors.{Err, Result, ok, err, panic, wrap, Result-Cases, Cases}
use ragivka.Tenant.{Ctx}
use ragivka.Aicore.Types.{GenerateRequest, GenerateResponse}
use ragivka.Aicore.Router.{
  LlmClient, RouterPolicy, ask, with_model, model_or, both, has_fallback, fall_back, or_fallback,
  generate,
}
use ragivka.World.{World, Call}

-- The model of the first question: the request's own, else the policy's entry for the task, also an
-- empty one, else the default.
abbrev pub IsChosen : RouterPolicy → GenerateRequest → String → Type 0
IsChosen policy req model =
    ((req.model ≢ "") × (model ≡ req.model))
    ⊎ (((req.model ≡ "") × (policy.models req.task_hint ≡ some model))
        ⊎ ((req.model ≡ "")
            × (policy.models req.task_hint ≡ none)
            × (model ≡ policy.default_model)))

-- There is no other model to turn to.
abbrev pub IsLast : RouterPolicy → String → Type 0
IsLast policy model = (policy.fallback ≡ "") ⊎ (model ≡ policy.fallback)

with_model-IsChosen :
    (policy : RouterPolicy) (req : GenerateRequest)
    → (model : String) × IsChosen policy req model
      × (with_model policy req ≡ record req { model = model })
unfolding with_model model_or
with_model-IsChosen policy req = elim (Bool-cases (str_eq req.model "")) [
  | inr named ↦ (
    req.model,
    inl (λ e. absurd (ground (arith, (eq_iff req.model "").1 e)), refl),
    rw named refl,
  )
  | inl empty ↦
      let unnamed = (eq_iff req.model "").0 empty in
      elim (Option-cases (policy.models req.task_hint)) [
        | inl gone ↦ (policy.default_model, inr (inr (unnamed, gone, refl)), rw (empty, gone) refl)
        | inr (m, entry) ↦ (m, inr (inl (unnamed, entry)), rw (empty, entry) refl)
      ]
]

has_fallback-IsLast :
    (policy : RouterPolicy) (req : GenerateRequest)
    → has_fallback policy req ≡ false
    → IsLast policy req.model
unfolding has_fallback
has_fallback-IsLast policy req h = elim (Bool-cases (str_eq policy.fallback "")) [
  | inl e ↦ inl ((eq_iff policy.fallback "").0 e)
  | inr e ↦ elim (Bool-cases (str_eq req.model policy.fallback)) [
    | inl same ↦ inr ((eq_iff req.model policy.fallback).0 same)
    | inr other ↦ absurd (ground arith)
  ]
]

has_fallback-others :
    (policy : RouterPolicy) (req : GenerateRequest)
    → has_fallback policy req ≡ true
    → ¬ IsLast policy req.model
unfolding has_fallback
has_fallback-others policy req h (inl e) =
    let same = (eq_iff policy.fallback "").1 e in absurd (ground arith)
has_fallback-others policy req h (inr e) =
    let same = (eq_iff req.model policy.fallback).1 e in absurd (ground arith)

-- What becomes of the second answer.
abbrev pub Outcome : Err → Result GenerateResponse → Result GenerateResponse → Type 0
Outcome first second r =
    ((resp : GenerateResponse) × (second ≡ ok resp) × (r ≡ ok resp))
    ⊎ (((e : Err) × (second ≡ err e) × (r ≡ err (wrap "primary and fallback" first)))
        ⊎ ((p : String) × (second ≡ panic p) × (r ≡ panic p)))

both-Outcome :
    (first : Err) (r : Result GenerateResponse) (w : World)
    → Outcome first r (both first r w).0 × ((both first r w).1 ≡ w)
unfolding both
both-Outcome first (ok resp) w = (inl (resp, refl, refl), refl)
both-Outcome first (err e) w = (inr (inl (e, refl, refl)), refl)
both-Outcome first (panic p) w = (inr (inr (p, refl, refl)), refl)

module _ (client : LlmClient) (policy : RouterPolicy) (ctx : Ctx) where
  abbrev pub first_answer : GenerateRequest → World → Result GenerateResponse
  first_answer req w = client ctx req (length w.calls)

  -- One question, whose answer is the result; an error only if there is no other model.
  abbrev pub Once : GenerateRequest → World → Result GenerateResponse × World → Type 0
  Once req w out =
      ((e : Err) → first_answer req w ≡ err e → IsLast policy req.model)
      × (out.0 ≡ first_answer req w)
      × (out.1.calls ≡ (Call.generate req ∷ w.calls))

  abbrev pub to_fallback : GenerateRequest → GenerateRequest
  to_fallback req = record req { model = policy.fallback }

  -- A failed question, and one more to the fallback model, which decides.
  abbrev pub Twice : GenerateRequest → World → Result GenerateResponse × World → Type 0
  Twice req w out =
      (first : Err) × (first_answer req w ≡ err first)
      × (¬ IsLast policy req.model)
      × Outcome first (client ctx (to_fallback req) (suc (length w.calls))) out.0
      × (out.1.calls ≡ (Call.generate (to_fallback req) ∷ Call.generate req ∷ w.calls))

  asks-chosen :
      (req : GenerateRequest) (w : World)
      → Once (with_model policy req) w (generate client policy ctx req w)
        ⊎ Twice (with_model policy req) w (generate client policy ctx req w)
  unfolding generate ask or_fallback fall_back
  asks-chosen req w =
      let chosen = with_model policy req in
      elim (Result-Cases (first_answer chosen w)) [
        | Cases.is_ok resp e ↦ rw e (inl (λ x h. absurd (ground arith), refl, refl))
        | Cases.is_panic p e ↦ rw e (inl (λ x h. absurd (ground arith), refl, refl))
        | Cases.is_err x e ↦ elim (Bool-cases (has_fallback policy chosen)) [
          | inr b ↦ rw (e, b) (inl (λ y h. has_fallback-IsLast policy chosen b, refl, refl))
          | inl b ↦
              let (outcome, same) = both-Outcome x _ _ in
              rw (e, b)
                (inr
                  (x, refl, has_fallback-others policy chosen b, outcome, ap (λ v. v.calls) same))
        ]
      ]

  -- For every request, the model of the first question is the one that the request names; if it
  -- names none, the policy's entry for the task, even if that is empty; and if there is no entry,
  -- the default. If the client answers that question with an error, and there is a fallback, and it
  -- is another model, then the router asks just once more, for the fallback: a good answer or a
  -- panic is then the result, and an error gives the first error, wrapped. Otherwise there is no
  -- second question, and what the client answered is the result.
  pub generate-asks :
      (req : GenerateRequest) (w : World)
      → (model : String) × IsChosen policy req model
        × (Once (record req { model = model }) w (generate client policy ctx req w)
            ⊎ Twice (record req { model = model }) w (generate client policy ctx req w))
  generate-asks req w =
      let (model, chosen, same) = with_model-IsChosen policy req in
      let answer = generate client policy ctx req w in
      (model, chosen, subst (λ r. Once r w answer ⊎ Twice r w answer) same (asks-chosen req w))
