-- ===== src/Runtime/ArtifactJob.antt =====
-- pkg/runtime/artifact_job.go: the worker that makes a document and stores it.
pub mod Typed
pub mod SameKey
mod Tests
use ragivka.Prelude.{ℕ, String, [], ◌∷◌, concat, str_eq, if◌then◌else◌}
use ragivka.Errors.{Result, ok, err, panic, sentinel, unsupported_artifact}
use ragivka.Tenant.{Ctx, Uuid, with_tenant_id}
use ragivka.Tools.Generators.{
  PdfData, ExcelData, AnyData, pdf_data, excel_data, artifact_pdf, artifact_excel,
}
use ragivka.Tools.Generators.Produce.{Dispatcher, dispatch}
use ragivka.World.{Exec, ◌>>=◌, lift, context}

pub record GenerateArtifactArgs : Type 0 where
  pub tenant_id : ℕ
  pub session_id : ℕ
  pub kind : String  -- the field Type
  pub data_json : String

pub record ArtifactRecord : Type 0 where
  pub tenant_id : String
  pub session_id : String
  pub kind : String
  pub s3_key : String
  pub size_bytes : ℕ

-- encoding/json on the two structs, whose S3Key it does not read.
pub record Decoder : Type 0 where
  pub pdf : String → Result PdfData
  pub excel : String → Result ExcelData

extension : String → String
extension kind =
    if str_eq kind artifact_pdf
    then "pdf"
    else (if str_eq kind artifact_excel then "xlsx" else "bin")

with_pdf_key : String → Result PdfData → Result AnyData
with_pdf_key key (ok d) = ok (pdf_data (record d { s3_key = key }))
with_pdf_key key (err e) = err e
with_pdf_key key (panic p) = panic p

with_excel_key : String → Result ExcelData → Result AnyData
with_excel_key key (ok d) = ok (excel_data (record d { s3_key = key }))
with_excel_key key (err e) = err e
with_excel_key key (panic p) = panic p

pub unmarshal_artifact_data : Decoder → String → String → String → Result AnyData
unfolding with_pdf_key with_excel_key
unmarshal_artifact_data json kind raw key =
    if str_eq kind artifact_pdf
    then with_pdf_key key (json.pdf raw)
    else (if str_eq kind artifact_excel
        then with_excel_key key (json.excel raw)
        else err (sentinel unsupported_artifact))

module _ ⦃uuid : Uuid⦄ where
  pub deterministic_key : String → String → ℕ → ℕ → String
  unfolding extension
  deterministic_key prefix kind tenant session = concat (
      prefix
      ∷ "/"
      ∷ kind
      ∷ "/"
      ∷ uuid.to_string tenant
      ∷ "/"
      ∷ uuid.to_string session
      ∷ "."
      ∷ extension kind
      ∷ [])

  -- The context of the job, and the key of its object.
  abbrev pub job_ctx : Ctx → GenerateArtifactArgs → Ctx
  job_ctx ctx args = with_tenant_id ctx (uuid.to_string args.tenant_id)

  abbrev pub job_key : String → GenerateArtifactArgs → String
  job_key prefix args = deterministic_key prefix args.kind args.tenant_id args.session_id

  abbrev pub artifact_of : GenerateArtifactArgs → String × ℕ → ArtifactRecord
  artifact_of args stored = record {
    tenant_id = uuid.to_string args.tenant_id;
    session_id = uuid.to_string args.session_id;
    kind = args.kind;
    s3_key = stored.0;
    size_bytes = stored.1;
  }

  -- The repository of artifacts is an interface that no file of the program implements.
  module _ (json : Decoder) (dispatcher : Dispatcher)
      (create : Ctx → ArtifactRecord → Exec (Unit {0})) (key_prefix : String) where
    unfoldable pub work : Ctx → GenerateArtifactArgs → Exec (Unit {0})
    work ctx args = do
      value ←
          context "generate_artifact: unmarshal data"
            (lift (unmarshal_artifact_data json args.kind args.data_json (job_key key_prefix args)))
      stored ←
          context "generate_artifact: dispatch"
            (dispatch dispatcher (job_ctx ctx args) args.kind value)
      create (job_ctx ctx args) (artifact_of args stored)
