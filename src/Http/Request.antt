-- ===== src/Http/Request.antt =====
-- src/http/request.rs, and what the middleware sees of a request and of a response.
use retsu.Base.{
  ℕ, Option, none, some, List, [], ◌∷◌, Text, bytes, has_name, if◌then◌else◌, ◌++◌, ◌/◌, ◌%◌, ◌+◌,
  ltb, suc, zero,
}

-- The versions that the `http` crate names, and any other.
pub data Version : Type 0 where
  http_09 http_10 http_11 http_2 http_3 unnamed : Version

abbrev pub known_methods : List Text
known_methods =
    bytes "CONNECT"
    ∷ bytes "DELETE"
    ∷ bytes "GET"
    ∷ bytes "HEAD"
    ∷ bytes "OPTIONS"
    ∷ bytes "PATCH"
    ∷ bytes "POST"
    ∷ bytes "PUT"
    ∷ bytes "QUERY"
    ∷ bytes "TRACE"
    ∷ []

abbrev pub known_schemes : List Text
known_schemes = bytes "http" ∷ bytes "https" ∷ []

unfoldable pub normalized_method : Text → Text
normalized_method method = if has_name known_methods method then method else bytes "_OTHER"

unfoldable pub normalized_scheme : Text → Text
normalized_scheme scheme = if has_name known_schemes scheme then scheme else bytes "_OTHER"

unfoldable pub protocol_version : Version → Option Text
protocol_version http_09 = some (bytes "0.9")
protocol_version http_10 = some (bytes "1.0")
protocol_version http_11 = some (bytes "1.1")
protocol_version http_2 = some (bytes "2")
protocol_version http_3 = some (bytes "3")
protocol_version unnamed = none

pub record ServiceRequest (Q : Type 0) : Type 0 where
  pub path : Text
  pub method : Text
  pub scheme : Text
  pub version : Version
  pub rest : Q

-- A response, with the pattern of the route that answered.
pub record RoutedResponse (R : Type 0) : Type 0 where
  pub status : ℕ
  pub match_pattern : Option Text
  pub rest : R

-- `to_string` of a u16, which has five digits at most.
abbrev pub decimal : ℕ → ℕ → Text
decimal zero n = []
decimal (suc places) n =
    let before = decimal places (n / 10) in
    if ltb n 10 then (48 + n) ∷ [] else before ++ (48 + n % 10) ∷ []

abbrev pub status_text : ℕ → Text
status_text = decimal 5
