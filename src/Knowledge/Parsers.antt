-- ===== src/Knowledge/Parsers.antt =====
-- pkg/knowledge/ingestion/parser.go: the text of a document. What the libraries read from the
-- bytes is a parameter: the tree of html.Parse, the pages of a PDF, the entries and tokens of a DOCX.
pub mod Texts
mod Tests
use ragivka.Prelude.{
  ℕ, Bool, ◌&&◌, not, String, Option, none, some, List, [], ◌∷◌, append, str_eq, if◌then◌else◌,
}
use ragivka.Errors.{Result, ok, err, other, wrapped, on_ok}
use ragivka.Knowledge.Pipeline.{Format, txt, html, pdf, docx}

-- An *html.Node: whether it is a TextNode, its Data, its FirstChild and its NextSibling.
pub data Node : Type 0 where
  nil : Node
  node : Bool → String → Node → Node → Node

-- What Page(i) gives: a page whose V is null, or what GetPlainText answers for it.
pub data Page : Type 0 where
  null_page : Page
  page : Option String → Page

-- What dec.Token gives, one after another: a start element with its local name and what
-- DecodeElement makes of it, another token, or an error. An element `t` is consumed as a whole.
pub data XmlToken : Type 0 where
  start_element : String → Option String → XmlToken
  other_token broken_token : XmlToken

pub record Libraries : Type 0 where
  pub to_text : List ℕ → String
  pub parse_html : List ℕ → Result Node
  pub open_pdf : List ℕ → Result (List Page)
  pub open_zip : List ℕ → Result (List (String × Result (List XmlToken)))
  pub trim_space : String → String

module _ (trim_space : String → String) where
  write_text : Bool → String → String → String
  write_text is_text data_ sb =
      if is_text && not (str_eq (trim_space data_) "")
      then append sb (append (trim_space data_) "\n")
      else sb

  -- The closure `extract` on a node and on the siblings after it.
  pub extract : Node → String → String
  unfolding write_text
  extract nil sb = sb
  extract (node is_text data_ first_child next_sibling) sb =
      extract next_sibling (extract first_child (write_text is_text data_ sb))

-- The loop over the pages; a page that cannot be read is skipped.
pub pages_text : List Page → String → String
pages_text [] sb = sb
pages_text (null_page ∷ rest) sb = pages_text rest sb
pages_text (page none ∷ rest) sb = pages_text rest sb
pages_text (page (some text) ∷ rest) sb = pages_text rest (append sb (append text "\n"))

pub some_text : String → Result String
some_text text =
    if str_eq text ""
    then err (other "pdf: no extractable text found (may be image-based)")
    else ok text

decoded : String → Option String → String
decoded sb none = sb
decoded sb (some text) = append sb text

extract_docx_text : List XmlToken → String → Result String
unfolding decoded
extract_docx_text [] sb = ok sb
extract_docx_text (broken_token ∷ rest) sb = err (other "docx xml decode")
extract_docx_text (other_token ∷ rest) sb = extract_docx_text rest sb
extract_docx_text (start_element name text ∷ rest) sb =
    extract_docx_text rest (if str_eq name "t" then decoded sb text else sb)

-- The first entry with the name, in the order of the archive.
document_entry : List (String × Result (List XmlToken)) → Result String
unfolding extract_docx_text
document_entry [] = err (other "docx: word/document.xml not found in archive")
document_entry ((name, contents) ∷ rest) =
    if str_eq name "word/document.xml"
    then on_ok (λ tokens. extract_docx_text tokens "") (wrapped "docx: open document.xml" contents)
    else document_entry rest

module _ (libs : Libraries) where
  pub parse_html_text : List ℕ → Result String
  parse_html_text bytes =
      on_ok (λ doc. ok (extract libs.trim_space doc ""))
        (wrapped "html parse" (libs.parse_html bytes))

  pub parse_pdf_text : List ℕ → Result String
  parse_pdf_text bytes =
      on_ok (λ pages. some_text (pages_text pages "")) (wrapped "pdf open" (libs.open_pdf bytes))

  parse_docx_text : List ℕ → Result String
  unfolding document_entry
  parse_docx_text bytes =
      on_ok document_entry (wrapped "docx: not a valid ZIP" (libs.open_zip bytes))

  -- Parse of the parser that ParserFor chose
  pub parse_document : Format → List ℕ → Result String
  unfolding parse_docx_text
  parse_document txt bytes = ok (libs.to_text bytes)
  parse_document html bytes = parse_html_text bytes
  parse_document pdf bytes = parse_pdf_text bytes
  parse_document docx bytes = parse_docx_text bytes
