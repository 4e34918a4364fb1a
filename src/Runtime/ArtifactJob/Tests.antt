-- ===== src/Runtime/ArtifactJob/Tests.antt =====
-- pkg/runtime/artifact_job.go with a library that prints one byte and a store that keeps its keys.
use ragivka.Prelude.{ℕ, ◌≡◌, refl, ◌⊎◌, List, [], ◌∷◌}
use ragivka.Errors.{ok, err, other}
use ragivka.Tenant.{Ctx}
use ragivka.Tenant.Sample.{unary_uuid, tenant_ctx}
use ragivka.Tools.Generators.{PdfData, ExcelData, pdf_data, artifact_pdf, artifact_excel}
use ragivka.Tools.Generators.Render.{Fpdf, Excelize, render_pdf, render_excel}
use ragivka.Tools.Generators.Produce.{
  GeneratorConfig, dispatch, upload_rendered, excel_content_type, pdf_generator,
}
use ragivka.Runtime.Retry.{repeated}
use ragivka.Runtime.ArtifactJob.{
  Decoder, GenerateArtifactArgs, ArtifactRecord, unmarshal_artifact_data, deterministic_key, work,
}
use ragivka.Runtime.ArtifactJob.Typed.{real, dispatch-typed}
use ragivka.Runtime.ArtifactJob.SameKey.{AllUnder, work-same_key}
use ragivka.World.{Exec, Call, pure}
use ragivka.World.Sample.{start}

abbrev pen : Fpdf
pen = record {
  Doc = List ℕ;
  new_doc = λ orientation unit size. [];
  add_page = λ d. 0 ∷ d;
  set_font = λ family style size d. d;
  cell_format = λ height text align d. 1 ∷ d;
  multi_cell = λ height text align d. 2 ∷ d;
  ln = λ height d. d;
  output = λ d. ok d;
}

abbrev grid : Excelize
grid = record {
  File = List ℕ;
  new_file = [];
  set_sheet_name = λ old new f. ok f;
  cell_name = λ col row. "A1";
  set_cell_value = λ sheet cell value f. ok (1 ∷ f);
  write_to_buffer = λ f. ok f;
}

abbrev keeper : GeneratorConfig
keeper = record {
  storage = λ ctx key bytes content_type n. ok key;
  key_prefix = "artifacts";
  fresh = "new";
}

abbrev titled : PdfData
titled = record { title = "T"; sections = []; s3_key = "" }

abbrev json : Decoder
json = record { pdf = λ raw. ok titled; excel = λ raw. err (other "unexpected end") }

abbrev no_repository : Ctx → ArtifactRecord → Exec (Unit {0})
no_repository ctx rec = pure tt

abbrev args : GenerateArtifactArgs
args = record { tenant_id = 0; session_id = 1; kind = "pdf"; data_json = "{}" }

-- Two runs put the same object under the same key.
work_twice :
    (repeated 2
      (work ⦃uuid = unary_uuid⦄ json
        (real pen grid keeper keeper)
        no_repository
        "p"
        (tenant_ctx 5)
        args)
      start).1.calls
    ≡ (Call.upload "p/pdf/1/11.pdf" (1 ∷ 0 ∷ []) "application/pdf"
        ∷ Call.upload "p/pdf/1/11.pdf" (1 ∷ 0 ∷ []) "application/pdf"
        ∷ [])
unfolding repeated work unmarshal_artifact_data dispatch pdf_generator render_pdf deterministic_key
work_twice = refl

work-same_key_example : AllUnder "p/pdf/1/11.pdf" 2 start (
    repeated 2
      (work ⦃uuid = unary_uuid⦄ json
        (real pen grid keeper keeper)
        no_repository
        "p"
        (tenant_ctx 5)
        args)
      start)
unfolding deterministic_key
work-same_key_example =
    work-same_key ⦃uuid = unary_uuid⦄ pen grid keeper keeper json no_repository "p"
      (λ ctx rec w. refl) (tenant_ctx 5) args 2 start

dispatch-typed_example :
    (("pdf" ≡ artifact_pdf)
      × ((d : PdfData) × (json.pdf "{}" ≡ ok d)
          × (dispatch
                (real pen grid keeper keeper)
                (tenant_ctx 5)
                "pdf"
                (pdf_data (record titled { s3_key = "k" }))
              ≡ upload_rendered keeper "pdf" "pdf" "application/pdf"
                  (tenant_ctx 5)
                  "k"
                  (render_pdf pen (record d { s3_key = "k" })))))
    ⊎ (("pdf" ≡ artifact_excel)
        × ((d : ExcelData) × (json.excel "{}" ≡ ok d)
            × (dispatch
                  (real pen grid keeper keeper)
                  (tenant_ctx 5)
                  "pdf"
                  (pdf_data (record titled { s3_key = "k" }))
                ≡ upload_rendered keeper "excel" "xlsx" excel_content_type
                    (tenant_ctx 5)
                    "k"
                    (render_excel grid (record d { s3_key = "k" })))))
unfolding unmarshal_artifact_data
dispatch-typed_example =
    dispatch-typed pen grid keeper keeper json "pdf" "{}" "k" (tenant_ctx 5) refl
