-- ===== src/Runtime/ArtifactJob/Typed.antt =====
-- What the boundary from JSON to Go of pkg/runtime/artifact_job.go hands to the dispatcher.
use ragivka.Prelude.{
  ◌≡◌, refl, String, ◌⊎◌, inl, inr, Bool-cases, true, false, arith, str_eq, eq_iff, sym,
}
use ragivka.Errors.{Result, ok, err, panic, ok-injective, sentinel, unsupported_artifact}
use ragivka.Tenant.{Ctx}
use ragivka.Tools.Generators.{
  PdfData, ExcelData, AnyData, pdf_data, excel_data, artifact_pdf, artifact_excel,
}
use ragivka.Tools.Generators.Render.{Fpdf, Excelize, render_pdf, render_excel}
use ragivka.Tools.Generators.Produce.{
  GeneratorConfig, Dispatcher, dispatch, pdf_generator, excel_generator, upload_rendered,
  excel_content_type,
}
use ragivka.Runtime.ArtifactJob.{Decoder, with_pdf_key, with_excel_key, unmarshal_artifact_data}

-- The value is what the decoder returned, with the key.
abbrev IsPdf : String → Result PdfData → AnyData → Type 0
IsPdf key decoded value =
    (d : PdfData) × (decoded ≡ ok d) × (value ≡ pdf_data (record d { s3_key = key }))

abbrev IsExcel : String → Result ExcelData → AnyData → Type 0
IsExcel key decoded value =
    (d : ExcelData) × (decoded ≡ ok d) × (value ≡ excel_data (record d { s3_key = key }))

module _ (kind key : String) {value : AnyData} where
  with_pdf_key-IsPdf : (r : Result PdfData) → with_pdf_key key r ≡ ok value → IsPdf key r value
  unfolding with_pdf_key
  with_pdf_key-IsPdf (ok d) h = (d, refl, sym (ok-injective h))
  with_pdf_key-IsPdf (err e) h = absurd (ground arith)
  with_pdf_key-IsPdf (panic p) h = absurd (ground arith)

  with_excel_key-IsExcel :
      (r : Result ExcelData) → with_excel_key key r ≡ ok value → IsExcel key r value
  unfolding with_excel_key
  with_excel_key-IsExcel (ok d) h = (d, refl, sym (ok-injective h))
  with_excel_key-IsExcel (err e) h = absurd (ground arith)
  with_excel_key-IsExcel (panic p) h = absurd (ground arith)

  -- The value has the Go type that the generator of the artifact type asserts, and bears the key.
  unmarshal_artifact_data-Typed :
      (json : Decoder) (raw : String)
      → unmarshal_artifact_data json kind raw key ≡ ok value
      → ((str_eq kind artifact_pdf ≡ true) × IsPdf key (json.pdf raw) value)
        ⊎ ((str_eq kind artifact_pdf ≡ false)
            × (str_eq kind artifact_excel ≡ true)
            × IsExcel key (json.excel raw) value)
  unfolding unmarshal_artifact_data
  unmarshal_artifact_data-Typed json raw h = elim (Bool-cases (str_eq kind artifact_pdf)) [
    | inl pdf ↦ inl (pdf, with_pdf_key-IsPdf (json.pdf raw) (rw pdf at h))
    | inr not_pdf ↦ elim (Bool-cases (str_eq kind artifact_excel)) [
      | inl excel ↦
          inr (not_pdf, excel, with_excel_key-IsExcel (json.excel raw) (rw (not_pdf, excel) at h))
      | inr not_excel ↦
          let never : ◌≡◌ {A = Result AnyData} (err (sentinel unsupported_artifact)) (ok value) =
            rw (not_pdf, not_excel) at h in
          absurd (ground arith)
    ]
  ]

module _ (fpdf : Fpdf) (excelize : Excelize) (p x : GeneratorConfig) where
  -- NewDispatcher with the two generators of the package
  abbrev pub real : Dispatcher
  real = record { pdf = pdf_generator fpdf p; excel = excel_generator excelize x }

  -- If the boundary made a value for an artifact type, then the decoder of that type has returned
  -- data, the dispatcher hands the value to the generator of that type, no type assertion fails,
  -- and the generator renders what the decoder returned, with the key filled in, and uploads the
  -- result under the key that the boundary was given.
  pub dispatch-typed :
      (json : Decoder) (kind raw key : String) {value : AnyData} (ctx : Ctx)
      → unmarshal_artifact_data json kind raw key ≡ ok value
      → ((kind ≡ artifact_pdf)
          × ((d : PdfData) × (json.pdf raw ≡ ok d)
              × (dispatch real ctx kind value
                  ≡ upload_rendered p "pdf" "pdf" "application/pdf" ctx key
                      (render_pdf fpdf (record d { s3_key = key })))))
        ⊎ ((kind ≡ artifact_excel)
            × ((d : ExcelData) × (json.excel raw ≡ ok d)
                × (dispatch real ctx kind value
                    ≡ upload_rendered x "excel" "xlsx" excel_content_type ctx key
                        (render_excel excelize (record d { s3_key = key })))))
  unfolding dispatch pdf_generator excel_generator
  dispatch-typed json kind raw key ctx h =
      elim (unmarshal_artifact_data-Typed kind key json raw h) [
        | inl (pdf, (d, decoded, same)) ↦
            inl ((eq_iff kind artifact_pdf).0 pdf, (d, decoded, rw (pdf, same) refl))
        | inr (not_pdf, excel, (d, decoded, same)) ↦
            inr ((eq_iff kind artifact_excel).0 excel, (d, decoded, rw (not_pdf, excel, same) refl))
      ]
