-- ===== src/Aicore/Sanitize.antt =====
-- pkg/aicore/sanitize.go: known prompt injections are replaced, over Go's regular expressions.
use ragivka.Prelude.{String, List, [], ◌∷◌}

-- regexp.MustCompile(pattern).ReplaceAllLiteralString(input, replacement)
pub record Regexp : Type 0 where
  pub replace_all_literal : String → String → String → String

injection_patterns : List String
injection_patterns =
    "(?i)ignore\\s+(all\\s+)?(previous|prior|above)\\s+instructions?"
    ∷ "(?i)forget\\s+(everything|all\\s+instructions?)" ∷ "(?i)you\\s+are\\s+now\\s+\\w+"
    ∷ "(?i)disregard\\s+(all\\s+)?(previous|prior)\\s+instructions?"
    ∷ "(?i)act\\s+as\\s+(if\\s+you\\s+are|a)\\s+\\w+" ∷ []

injection_placeholder : String
injection_placeholder = "[filtered]"

module _ ⦃regexp : Regexp⦄ where
  replace_all : List String → String → String
  unfolding injection_placeholder
  replace_all [] input = input
  replace_all (p ∷ rest) input =
      replace_all rest (regexp.replace_all_literal p input injection_placeholder)

  pub sanitize_input : String → String
  unfolding injection_patterns replace_all
  sanitize_input input = replace_all injection_patterns input
