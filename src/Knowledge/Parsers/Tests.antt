-- ===== src/Knowledge/Parsers/Tests.antt =====
-- The parsers at a small tree and at pages.
use ragivka.Prelude.{◌≡◌, refl, true, false, String, none, some, List, [], ◌∷◌}
use ragivka.Errors.{Result, ok, err, other}
use ragivka.Knowledge.Pipeline.{docx}
use ragivka.Knowledge.Parsers.{
  Node, nil, node, Page, null_page, page, XmlToken, start_element, other_token, Libraries,
  parse_html_text, parse_pdf_text, parse_document, some_text, pages_text,
}
use ragivka.Knowledge.Parsers.Texts.{
  lines, texts_of, readable, parse_html_text-lines, parse_pdf_text-lines,
}

-- <p>hi<b>you</b></p><script>x</script>
abbrev tree : Node
tree =
    node false "p" (node true "hi" nil (node false "b" (node true "you" nil nil) nil))
      (node false "script" (node true "x" nil nil) nil)

-- A null page, one without text and one that cannot be read.
abbrev scan : List Page
scan = null_page ∷ page (some "") ∷ page none ∷ []

abbrev archive : List (String × Result (List XmlToken))
archive =
    ("[Content_Types].xml", ok [])
    ∷ (
      "word/document.xml",
      ok (
          start_element "p" none
          ∷ start_element "t" (some "a")
          ∷ other_token
          ∷ start_element "t" none
          ∷ start_element "t" (some "b")
          ∷ []),
    )
    ∷ []

abbrev libs : Libraries
libs = record {
  to_text = λ bytes. "";
  parse_html = λ bytes. ok tree;
  open_pdf = λ bytes. ok scan;
  open_zip = λ bytes. ok archive;
  trim_space = λ t. t;
}

parse_html_text-lines_example : parse_html_text libs [] ≡ ok (lines (texts_of (λ t. t) tree))
parse_html_text-lines_example = parse_html_text-lines libs [] tree refl

visible_lines : lines (texts_of (λ t. t) tree) ≡ "hi\nyou\nx\n"
unfolding lines texts_of
visible_lines = refl

parse_pdf_text-lines_example :
    (readable scan ≡ []
      → parse_pdf_text libs [] ≡ err (other "pdf: no extractable text found (may be image-based)"))
    × ((text : String) (rest : List String)
        → readable scan ≡ text ∷ rest
        → parse_pdf_text libs [] ≡ ok (lines (text ∷ rest)))
parse_pdf_text-lines_example = parse_pdf_text-lines libs [] scan refl

scan_is_text : parse_pdf_text libs [] ≡ ok "\n"
unfolding parse_pdf_text some_text pages_text
scan_is_text = refl

docx_text : parse_document libs docx [] ≡ ok "ab"
unfolding parse_document
docx_text = refl
