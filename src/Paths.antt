-- ===== src/Paths.antt =====
-- The segments of a request's path, as the handlers take them apart with the package strings.
use ragivka.Prelude.{◌&&◌, String, List, [], ◌∷◌, append, str_eq, if◌then◌else◌}

-- strings.Trim(path, "/"), from either end
trim_left : String → String
trim_left String.[] = ""
trim_left (String.◌∷◌ c s) = if str_eq (String.◌∷◌ c "") "/" then trim_left s else String.◌∷◌ c s

trim_right : String → String
trim_right String.[] = ""
trim_right (String.◌∷◌ c s) =
    let rest = trim_right s in
    if str_eq (String.◌∷◌ c "") "/" && str_eq rest "" then "" else String.◌∷◌ c rest

onto_first : String → List String → List String
onto_first c [] = c ∷ []
onto_first c (s ∷ rest) = append c s ∷ rest

-- strings.Split(s, "/")
unfoldable pub split_path : String → List String
unfolding onto_first
split_path String.[] = "" ∷ []
split_path (String.◌∷◌ c s) =
    let rest = split_path s in
    if str_eq (String.◌∷◌ c "") "/" then "" ∷ rest else onto_first (String.◌∷◌ c "") rest

-- strings.Split(strings.Trim(path, "/"), "/")
unfoldable pub path_parts : String → List String
unfolding trim_left trim_right split_path
path_parts path = split_path (trim_right (trim_left path))
