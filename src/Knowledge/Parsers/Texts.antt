-- ===== src/Knowledge/Parsers/Texts.antt =====
-- What the parsers of pkg/knowledge/ingestion/parser.go make of a tree and of pages.
use ragivka.Prelude.{
  ℕ, ◌≡◌, refl, sym, ap, ◌∙◌, Bool, false, ◌&&◌, not, String, none, some, List, [], ◌∷◌, ◌++◌,
  append, append-append, append_empty, cons-not_empty, str_eq, if◌then◌else◌, Bool-cases, inl, inr,
}
use ragivka.Errors.{ok, err, other}
use ragivka.Knowledge.Parsers.{
  Node, nil, node, Page, null_page, page, Libraries, write_text, extract, pages_text, some_text,
  parse_html_text, parse_pdf_text,
}

-- Each text on a line of its own.
unfoldable pub lines : List String → String
lines [] = ""
lines (t ∷ rest) = append (append t "\n") (lines rest)

lines-append : (xs ys : List String) → lines (xs ++ ys) ≡ append (lines xs) (lines ys)
unfolding lines
lines-append [] ys = refl
lines-append (x ∷ xs) ys =
    ap (append (append x "\n")) (lines-append xs ys)
    ∙ sym (append-append (append x "\n") (lines xs) (lines ys))

-- A text and a line feed are not nothing.
line_is_some : (t later : String) → str_eq (append (append t "\n") later) "" ≡ false
line_is_some String.[] later = cons-not_empty "\n" later
line_is_some (String.◌∷◌ c t) later = cons-not_empty c (append (append t "\n") later)

-- The trimmed texts of the tree that are not empty, in the order of the document.
own_text : (String → String) → Bool → String → List String
own_text trim is_text data_ =
    if is_text && not (str_eq (trim data_) "") then trim data_ ∷ [] else []

unfoldable pub texts_of : (String → String) → Node → List String
unfolding own_text
texts_of trim nil = []
texts_of trim (node is_text data_ first_child next_sibling) =
    own_text trim is_text data_ ++ (texts_of trim first_child ++ texts_of trim next_sibling)

write_text-lines :
    (trim : String → String) (is_text : Bool) (data_ sb : String)
    → write_text trim is_text data_ sb ≡ append sb (lines (own_text trim is_text data_))
unfolding write_text own_text lines
write_text-lines trim is_text data_ sb =
    elim (Bool-cases (is_text && not (str_eq (trim data_) ""))) [
      | inl e ↦ rw e (ap (append sb) (sym (append_empty (append (trim data_) "\n"))))
      | inr e ↦ rw e (sym (append_empty sb))
    ]

extract-after :
    (trim : String → String) (n : Node) (sb : String)
    → extract trim n sb ≡ append sb (lines (texts_of trim n))
unfolding extract texts_of lines
extract-after trim nil sb = sym (append_empty sb)
extract-after trim (node is_text data_ first_child next_sibling) sb =
    let here = own_text trim is_text data_ in
    let below = texts_of trim first_child in
    let after = texts_of trim next_sibling in
    let written = write_text trim is_text data_ sb in
    extract-after trim next_sibling (extract trim first_child written)
    ∙ ap (λ s. append s (lines after)) (extract-after trim first_child written)
    ∙ append-append written (lines below) (lines after)
    ∙ ap (λ s. append s (append (lines below) (lines after)))
        (write_text-lines trim is_text data_ sb)
    ∙ append-append sb (lines here) (append (lines below) (lines after))
    ∙ ap (λ s. append sb (append (lines here) s)) (sym (lines-append below after))
    ∙ ap (append sb) (sym (lines-append here (below ++ after)))

-- The pages that are not null and that the library reads.
pub readable : List Page → List String
readable [] = []
readable (null_page ∷ rest) = readable rest
readable (page none ∷ rest) = readable rest
readable (page (some text) ∷ rest) = text ∷ readable rest

pages_text-lines :
    (pages : List Page) (sb : String) → pages_text pages sb ≡ append sb (lines (readable pages))
unfolding pages_text readable lines
pages_text-lines [] sb = sym (append_empty sb)
pages_text-lines (null_page ∷ rest) sb = pages_text-lines rest sb
pages_text-lines (page none ∷ rest) sb = pages_text-lines rest sb
pages_text-lines (page (some text) ∷ rest) sb =
    pages_text-lines rest (append sb (append text "\n"))
    ∙ append-append sb (append text "\n") (lines (readable rest))

some_text-lines :
    (text : String) (rest : List String)
    → some_text (lines (text ∷ rest)) ≡ ok (lines (text ∷ rest))
unfolding some_text lines
some_text-lines text rest = rw (line_is_some text (lines rest)) refl

-- The HTML parser's text has each text of the tree that is not blank, trimmed, on a line of its
-- own, in the order of the document, whichever element the text is in.
pub parse_html_text-lines :
    (libs : Libraries) (bytes : List ℕ) (doc : Node)
    → libs.parse_html bytes ≡ ok doc
    → parse_html_text libs bytes ≡ ok (lines (texts_of libs.trim_space doc))
unfolding parse_html_text
parse_html_text-lines libs bytes doc h = rw h (ap ok (extract-after libs.trim_space doc ""))

-- If a PDF opens, the parser reports a lack of text when none of its pages could be read. When one
-- could, it answers the texts of those that could, each on a line of its own in their order, be
-- they all empty.
pub parse_pdf_text-lines :
    (libs : Libraries) (bytes : List ℕ) (pages : List Page)
    → libs.open_pdf bytes ≡ ok pages
    → (readable pages ≡ []
        → parse_pdf_text libs bytes
          ≡ err (other "pdf: no extractable text found (may be image-based)"))
      × ((text : String) (rest : List String)
          → readable pages ≡ text ∷ rest
          → parse_pdf_text libs bytes ≡ ok (lines (text ∷ rest)))
unfolding parse_pdf_text
parse_pdf_text-lines libs bytes pages h = (
  (λ e.
      rw h
        (ap some_text (pages_text-lines pages "" ∙ ap lines e) ∙ (unfold some_text lines in refl))),
  (λ text rest e.
      rw h (ap some_text (pages_text-lines pages "" ∙ ap lines e) ∙ some_text-lines text rest)),
)
