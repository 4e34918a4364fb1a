-- ===== src/Runtime/ArtifactJob/SameKey.antt =====
-- What the runs of one job of pkg/runtime/artifact_job.go put into the object store.
use mathlib.Core.List.{append_assoc}
use ragivka.Prelude.{
  ℕ, zero, suc, ◌≤◌, ◌≡◌, ◌≢◌, refl, ◌∙◌, ap, sym, String, ◌⊎◌, inl, inr, false, List, [], ◌∷◌,
  ◌++◌, All, length, length-append, arith, append, cons-not_empty, str_eq,
}
use ragivka.Errors.{Result, ok, err, panic, Result-Cases, Cases}
use ragivka.Tenant.{Ctx, Uuid}
use ragivka.Tools.Generators.{AnyData}
use ragivka.Tools.Generators.Render.{Fpdf, Excelize}
use ragivka.Tools.Generators.Produce.{GeneratorConfig, dispatch, upload_rendered}
use ragivka.Runtime.Retry.{succeeded-le, succeeded-failed, repeated}
use ragivka.Runtime.Sessions.Calls.{calls_of}
use ragivka.Runtime.ArtifactJob.{
  Decoder, GenerateArtifactArgs, ArtifactRecord, unmarshal_artifact_data, deterministic_key,
  job_ctx, job_key, artifact_of, work,
}
use ragivka.Runtime.ArtifactJob.Typed.{real, dispatch-typed}
use ragivka.World.{World, Exec, Call, ◌>>=◌, context}
use ragivka.World.Keeps.{Keeps}

append-not_empty : (s t : String) → str_eq (append s (append "/" t)) "" ≡ false
append-not_empty String.[] t = cons-not_empty "/" t
append-not_empty (String.◌∷◌ c s) t = cons-not_empty c (append s (append "/" t))

abbrev UploadedAs : String → List Call → List Call → Type 0
UploadedAs key before after =
    (bytes : List ℕ) × (content_type : String) × (after
      ≡ Call.upload key bytes content_type ∷ before)

-- Nothing was called and the run failed, or one object was put under the key.
abbrev Once : {A : Type 0} → String → World → Result A × World → Type 0
Once key w out =
    ((out.1.calls ≡ w.calls) × ((a : _) → out.0 ≢ ok a)) ⊎ UploadedAs key w.calls out.1.calls

module _ (g : GeneratorConfig) (name ext content_type : String) (ctx : Ctx) (key : String)
    (set : str_eq key "" ≡ false) where
  upload_rendered-Once :
      (rendered : Result (List ℕ)) (w : World)
      → Once key w (upload_rendered g name ext content_type ctx key rendered w)
  unfolding upload_rendered
  upload_rendered-Once (ok buf) w =
      rw set (elim (Result-Cases (g.storage ctx key buf content_type (length w.calls))) [
        | Cases.is_ok stored e ↦ rw e (inr (buf, content_type, refl))
        | Cases.is_err x e ↦ rw e (inr (buf, content_type, refl))
        | Cases.is_panic p e ↦ rw e (inr (buf, content_type, refl))
      ])
  upload_rendered-Once (err e) w = inl (refl, λ a h. absurd (ground arith))
  upload_rendered-Once (panic p) w = inl (refl, λ a h. absurd (ground arith))

Once-not_ok :
    {A : Type 0} (key : String) (w : World) (r : Result A)
    → ((a : A) → r ≢ ok a)
    → Once key w (r, w)
Once-not_ok key w r h = inl (refl, h)

All-last :
    {A : Type 0} (P : A → Type 0) {a : A} (xs : List A) → All P xs → P a → All P (xs ++ a ∷ [])
All-last P [] h p = (p, tt)
All-last P (x ∷ xs) h p = (h.0, All-last P xs h.1 p)

abbrev pub PutUnder : String → Call → Type 0
PutUnder key c =
    (bytes : List ℕ) × (content_type : String) × (c ≡ Call.upload key bytes content_type)

-- Every call was an upload under the key, and there was one for each good run at least.
abbrev pub AllUnder : String → ℕ → World → ℕ × World → Type 0
AllUnder key n w out =
    (added : List Call) × (out.1.calls ≡ added ++ w.calls)
    × All (PutUnder key) added
    × (out.0 ≤ length added)
    × (length added ≤ n)

repeated-AllUnder :
    {A : Type 0} (key : String) (m : Exec A)
    → ((w : World) → Once key w (m w))
    → (n : ℕ) (w : World) → AllUnder key n w (repeated n m w)
unfolding repeated
repeated-AllUnder key m once zero w = ([], refl, tt, omega arith, omega arith)
repeated-AllUnder key m once (suc n) w =
    let (added, e, under, enough, few) = repeated-AllUnder key m once n (m w).1 in
    elim (once w) [
      | inl (same, failed) ↦ (
        added,
        e ∙ ap (λ cs. added ++ cs) same,
        under,
        omega (arith, succeeded-failed (m w).0 failed),
        omega arith,
      )
      | inr (bytes, content_type, one) ↦
          let u = Call.upload key bytes content_type in
          (
            added ++ u ∷ [],
            e ∙ ap (λ cs. added ++ cs) one ∙ sym (append_assoc added (u ∷ []) w.calls),
            All-last (PutUnder key) added under (bytes, content_type, refl),
            omega (arith, succeeded-le (m w).0, length-append {0} added (u ∷ [])),
            omega (arith, length-append {0} added (u ∷ [])),
          )
    ]

module _ ⦃uuid : Uuid⦄ where
  deterministic_key-not_empty :
      (prefix kind : String) (tenant session : ℕ)
      → str_eq (deterministic_key prefix kind tenant session) "" ≡ false
  unfolding deterministic_key
  deterministic_key-not_empty prefix kind tenant session = append-not_empty prefix _

  module _ (fpdf : Fpdf) (excelize : Excelize) (p x : GeneratorConfig) (json : Decoder)
      (create : Ctx → ArtifactRecord → Exec (Unit {0})) (key_prefix : String)
      (quiet : (ctx : Ctx) (rec : ArtifactRecord) → Keeps calls_of (create ctx rec)) (ctx : Ctx)
      (args : GenerateArtifactArgs) where
    abbrev job : Exec (Unit {0})
    job = work json (real fpdf excelize p x) create key_prefix ctx args

    dispatch-Once :
        (value : AnyData) (w : World)
        → unmarshal_artifact_data json args.kind args.data_json (job_key key_prefix args) ≡ ok value
        → Once
            (job_key key_prefix args)
            w
            (dispatch (real fpdf excelize p x) (job_ctx ctx args) args.kind value w)
    dispatch-Once value w h =
        let set = deterministic_key-not_empty key_prefix args.kind args.tenant_id args.session_id in
        elim (dispatch-typed fpdf excelize p x json args.kind args.data_json
          (job_key key_prefix args) (job_ctx ctx args) h) [
            | inl (_, (d, _, e)) ↦ rw e (upload_rendered-Once p _ _ _ _ _ set _ w)
            | inr (_, (d, _, e)) ↦ rw e (upload_rendered-Once x _ _ _ _ _ set _ w)
          ]

    abbrev sent : AnyData → Exec (String × ℕ)
    sent value = dispatch (real fpdf excelize p x) (job_ctx ctx args) args.kind value

    dispatched :
        (value : AnyData) (w : World)
        → Once (job_key key_prefix args) w (sent value w)
        → Once (job_key key_prefix args) w (
            (do
              stored ← context "generate_artifact: dispatch" (sent value)
              create (job_ctx ctx args) (artifact_of args stored))
              w)
    dispatched value w (inr (bytes, content_type, e)) = elim (Result-Cases (sent value w).0) [
      | Cases.is_ok stored er ↦ rw er (
          inr (
            bytes,
            content_type,
            quiet (job_ctx ctx args) (artifact_of args stored) (sent value w).1 ∙ e,
          ))
      | Cases.is_err failure er ↦ rw er (inr (bytes, content_type, e))
      | Cases.is_panic msg er ↦ rw er (inr (bytes, content_type, e))
    ]
    dispatched value w (inl (same, failed)) = elim (Result-Cases (sent value w).0) [
      | Cases.is_ok stored er ↦ absurd (failed stored er)
      | Cases.is_err e er ↦ rw er (inl (same, λ a h. absurd (ground arith)))
      | Cases.is_panic e er ↦ rw er (inl (same, λ a h. absurd (ground arith)))
    ]

    work-Once : (w : World) → Once (job_key key_prefix args) w (job w)
    unfolding work
    work-Once w =
        elim (Result-Cases
          (unmarshal_artifact_data json args.kind args.data_json (job_key key_prefix args))) [
            | Cases.is_ok value e ↦ rw e (dispatched value w (dispatch-Once value w e))
            | Cases.is_err e er ↦ rw er (inl (refl, λ a h. absurd (ground arith)))
            | Cases.is_panic e er ↦ rw er (inl (refl, λ a h. absurd (ground arith)))
          ]

    -- However often the job is run, and whatever its generators, its database and the object store
    -- answer, each call that it makes puts an object under the one key of the job, and every run
    -- that ends without an error has made such a call, provided that the repository calls nothing.
    pub work-same_key :
        (n : ℕ) (w : World) → AllUnder (job_key key_prefix args) n w (repeated n job w)
    work-same_key n w = repeated-AllUnder (job_key key_prefix args) job work-Once n w
