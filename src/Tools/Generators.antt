-- ===== src/Tools/Generators.antt =====
-- pkg/tools/generators: documents made from structured data, and the choice of a generator. The
-- drawing and the spreadsheet library and the object store are parameters.
pub mod Render
pub mod Produce
use ragivka.Prelude.{ℕ, String, List}
use ragivka.Errors.{Result}
use ragivka.Tenant.{Ctx}

pub record PdfSection : Type 0 where
  pub heading : String
  pub body : String

pub record PdfData : Type 0 where
  pub title : String
  pub sections : List PdfSection
  pub s3_key : String

pub record ExcelData : Type 0 where
  pub sheet_name : String
  pub headers : List String
  pub rows : List (List String)
  pub s3_key : String

-- The Go type `any`, as far as the generators look: a type assertion tells the three apart.
pub data AnyData : Type 0 where
  pdf_data : PdfData → AnyData
  excel_data : ExcelData → AnyData
  other_data : AnyData

abbrev pub artifact_pdf : String
artifact_pdf = "pdf"

abbrev pub artifact_excel : String
artifact_excel = "excel"

-- StorageClient: what Upload answers for a key, bytes and a content type, after so many calls.
abbrev pub StorageClient : Type 0
StorageClient = Ctx → String → List ℕ → String → ℕ → Result String
