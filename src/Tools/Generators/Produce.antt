-- ===== src/Tools/Generators/Produce.antt =====
-- The two generators and the dispatcher (pdf.go, excel.go and dispatcher.go of
-- pkg/tools/generators).
use ragivka.Prelude.{ℕ, String, List, [], ◌∷◌, concat, length, str_eq, if◌then◌else◌}
use ragivka.Errors.{Result, sentinel, unsupported_artifact}
use ragivka.Tenant.{Ctx, must_get_tenant_id}
use ragivka.Tools.Generators.{
  AnyData, pdf_data, excel_data, other_data, artifact_pdf, artifact_excel, StorageClient,
}
use ragivka.Tools.Generators.Render.{Fpdf, Excelize, render_pdf, render_excel}
use ragivka.World.{Exec, Call, ◌>>=◌, pure, fail, lift, context}

-- The key under which the object is stored, and its number of bytes.
abbrev pub Generator : Type 0
Generator = Ctx → AnyData → Exec (String × ℕ)

pub put_object : StorageClient → Ctx → String → List ℕ → String → Exec String
put_object store ctx key bytes content_type w = (
  store ctx key bytes content_type (length w.calls),
  record w { calls = Call.upload key bytes content_type ∷ w.calls },
)

-- A key that the caller did not set: the tenant's prefix and a new UUID.
key_or_new : String → String → String → Ctx → String → Exec String
key_or_new prefix fresh ext ctx key =
    if str_eq key ""
    then (do
      tenant ← lift (must_get_tenant_id ctx)
      pure (concat (prefix ∷ "/" ∷ tenant ∷ "/" ∷ fresh ∷ "." ∷ ext ∷ [])))
    else pure key

pub record GeneratorConfig : Type 0 where
  pub storage : StorageClient
  pub key_prefix : String
  -- What uuid.New() gives.
  pub fresh : String

abbrev pub excel_content_type : String
excel_content_type = "application/vnd.openxmlformats-officedocument.spreadsheetml.sheet"

-- A generator goes on with the bytes that it rendered.
unfoldable pub upload_rendered :
    GeneratorConfig → String → String → String → Ctx → String → Result (List ℕ) → Exec (String × ℕ)
unfolding put_object key_or_new
upload_rendered g name ext content_type ctx set_key rendered = do
  buf ← context (concat (name ∷ ": render" ∷ [])) (lift rendered)
  key ← key_or_new g.key_prefix g.fresh ext ctx set_key
  stored ← context (concat (name ∷ ": upload" ∷ [])) (put_object g.storage ctx key buf content_type)
  pure (stored, length buf)

unfoldable pub pdf_generator : Fpdf → GeneratorConfig → Generator
unfolding upload_rendered
pdf_generator fpdf g ctx (pdf_data pd) =
    upload_rendered g "pdf" "pdf" "application/pdf" ctx pd.s3_key (render_pdf fpdf pd)
pdf_generator fpdf g ctx (excel_data ed) = fail (sentinel unsupported_artifact)
pdf_generator fpdf g ctx other_data = fail (sentinel unsupported_artifact)

unfoldable pub excel_generator : Excelize → GeneratorConfig → Generator
unfolding upload_rendered
excel_generator excelize g ctx (pdf_data pd) = fail (sentinel unsupported_artifact)
excel_generator excelize g ctx (excel_data ed) =
    upload_rendered g "excel" "xlsx" excel_content_type ctx ed.s3_key (render_excel excelize ed)
excel_generator excelize g ctx other_data = fail (sentinel unsupported_artifact)

pub record Dispatcher : Type 0 where
  pub pdf : Generator
  pub excel : Generator

unfoldable pub dispatch : Dispatcher → Ctx → String → AnyData → Exec (String × ℕ)
dispatch d ctx kind value =
    if str_eq kind artifact_pdf
    then d.pdf ctx value
    else (if str_eq kind artifact_excel
        then d.excel ctx value
        else fail (sentinel unsupported_artifact))
