-- ===== src/Tools/Generators/Render.antt =====
-- renderPDF and renderExcel of pkg/tools/generators, over the calls of their libraries.
use ragivka.Prelude.{ℕ, suc, String, List, [], ◌∷◌, str_eq, if◌then◌else◌}
use ragivka.Errors.{Result, ok, ◌>>=◌}
use ragivka.Tools.Generators.{PdfSection, PdfData, ExcelData}

-- A document of github.com/go-pdf/fpdf, and the calls that renderPDF makes of it: the sizes are in
-- points and millimetres, the last argument of a cell is its alignment.
pub record Fpdf : Type 1 where
  pub Doc : Type 0
  pub new_doc : String → String → String → Doc
  pub add_page : Doc → Doc
  pub set_font : String → String → ℕ → Doc → Doc
  pub cell_format : ℕ → String → String → Doc → Doc
  pub multi_cell : ℕ → String → String → Doc → Doc
  pub ln : ℕ → Doc → Doc
  pub output : Doc → Result (List ℕ)

-- A file of github.com/xuri/excelize; columns and rows count from 1.
pub record Excelize : Type 1 where
  pub File : Type 0
  pub new_file : File
  pub set_sheet_name : String → String → File → Result File
  pub cell_name : ℕ → ℕ → String
  pub set_cell_value : String → String → String → File → Result File
  pub write_to_buffer : File → Result (List ℕ)

module _ (fpdf : Fpdf) where
  open fpdf use {Doc, new_doc, add_page, set_font, cell_format, multi_cell, ln, output}

  -- The loop over the sections.
  section_cells : List PdfSection → Doc → Doc
  section_cells [] f = f
  section_cells (sec ∷ rest) f = section_cells rest (
      ln 4 (
        multi_cell 6 sec.body "L" (
          set_font "Helvetica" "" 11
            (cell_format 8 sec.heading "L" (set_font "Helvetica" "B" 12 f)))))

  unfoldable pub render_pdf : PdfData → Result (List ℕ)
  unfolding section_cells
  render_pdf pd = output (
      section_cells pd.sections (
        ln 4 (
          cell_format 10 pd.title "C"
            (set_font "Helvetica" "B" 16 (add_page (new_doc "P" "mm" "A4"))))))

module _ (excelize : Excelize) where
  open excelize use {File, new_file, set_sheet_name, cell_name, set_cell_value, write_to_buffer}

  -- The cells of one row, from a column on.
  pub row_cells : String → ℕ → ℕ → List String → File → Result File
  row_cells sheet row col [] f = ok f
  row_cells sheet row col (value ∷ rest) f =
      set_cell_value sheet (cell_name col row) value f >>= row_cells sheet row (suc col) rest

  -- The loop over the rows; the headers stand in row 1.
  pub all_rows : String → ℕ → List (List String) → File → Result File
  unfolding row_cells
  all_rows sheet row [] f = ok f
  all_rows sheet row (values ∷ rest) f =
      row_cells sheet row 1 values f >>= all_rows sheet (suc row) rest

  sheet_of : ExcelData → String
  sheet_of ed = if str_eq ed.sheet_name "" then "Sheet1" else ed.sheet_name

  pub render_excel : ExcelData → Result (List ℕ)
  unfolding sheet_of all_rows row_cells
  render_excel ed = do
    named ← set_sheet_name "Sheet1" (sheet_of ed) new_file
    headed ← row_cells (sheet_of ed) 1 1 ed.headers named
    filled ← all_rows (sheet_of ed) 2 ed.rows headed
    write_to_buffer filled
