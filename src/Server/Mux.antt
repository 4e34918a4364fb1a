-- ===== src/Server/Mux.antt =====
-- The patterns that cmd/server/main.go registers, and how the ServeMux of net/http selects one. Paths
-- have no percent escapes.
use ragivka.Prelude.{
  Bool, true, false, ◌&&◌, ◌||◌, not, String, List, [], ◌∷◌, str_eq, if◌then◌else◌,
}
use ragivka.Orchestrator.Endpoint.{HttpRequest}
use ragivka.Paths.{split_path}

pub data Route : Type 0 where
  metrics health post_message list_history post_session web_socket telegram : Route

-- The routes of a path, each with its method; no method stands for any. A wildcard is one segment,
-- and not an empty one at the end of the path.
routes_of : List String → List (String × Route)
routes_of (root ∷ a ∷ []) =
    if str_eq a "metrics"
    then ("", metrics) ∷ []
    else (if str_eq a "health" then ("", health) ∷ [] else [])
routes_of (root ∷ a ∷ b ∷ []) =
    if str_eq a "v1" && str_eq b "sessions" then ("POST", post_session) ∷ [] else []
routes_of (root ∷ a ∷ b ∷ id ∷ []) =
    if str_eq a "ws" && str_eq b "sessions" && not (str_eq id "")
    then ("GET", web_socket) ∷ []
    else (if str_eq a "telegram" && str_eq b "webhook" && not (str_eq id "")
        then ("POST", telegram) ∷ []
        else [])
routes_of (root ∷ a ∷ b ∷ id ∷ c ∷ []) =
    if str_eq a "v1" && str_eq b "sessions" && str_eq c "messages"
    then ("POST", post_message) ∷ ("GET", list_history) ∷ []
    else []
routes_of _ = []

-- GET stands for HEAD as well.
takes : String → String → Bool
takes pattern method =
    str_eq pattern "" || str_eq pattern method || str_eq pattern "GET" && str_eq method "HEAD"

-- What a request gets: a handler, a redirect to the clean path, 405 or 404.
pub data Target : Type 0 where
  handled_by : Route → Target
  redirected not_allowed not_found : Target

with_method : String → List (String × Route) → Target
unfolding takes
with_method method [] = not_allowed
with_method method ((pattern, route) ∷ rest) =
    if takes pattern method then handled_by route else with_method method rest

of_routes : String → List (String × Route) → Target
unfolding with_method
of_routes method [] = not_found
of_routes method (r ∷ rest) = with_method method (r ∷ rest)

-- No segment is empty, or one of dots; the last one may be empty.
clean_segments : List String → Bool
clean_segments [] = true
clean_segments (s ∷ []) = not (str_eq s "." || str_eq s "..")
clean_segments (s ∷ next ∷ rest) =
    let others = clean_segments (next ∷ rest) in
    not (str_eq s "" || str_eq s "." || str_eq s "..") && others

-- A clean path starts with a slash.
is_clean : List String → Bool
unfolding clean_segments
is_clean (root ∷ s ∷ rest) = str_eq root "" && clean_segments (s ∷ rest)
is_clean _ = false

-- The path of a CONNECT request is matched as it is.
unfoldable pub target_of : HttpRequest → Target
unfolding routes_of of_routes is_clean
target_of req =
    if is_clean (split_path req.path) || str_eq req.method "CONNECT"
    then of_routes req.method (routes_of (split_path req.path))
    else redirected
