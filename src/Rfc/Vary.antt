-- ===== src/Rfc/Vary.antt =====
-- pkg/rfc/vary.go: the key of a variant.
pub mod Keys
use souin.Prelude.{
  String, Bool, true, false, ◌||◌, Option, none, some, List, [], ◌∷◌, ◌==◌, map, any, or_else,
  if◌then◌else◌,
}
use souin.Text.{◌<>◌, contains, join, trim_space}
use souin.Text.Escape.{query_escape}
use souin.Http.{Request}
use souin.Http.Headers
use souin.Http.Headers.{Header}
use souin.Rfc.{header_all_comma_sep_values}

-- The part of the key for the value of one header.
unfoldable pub varied_value : String → String
unfolding contains query_escape trim_space
varied_value value =
    let h = trim_space value in if contains h ";" || contains h ":" then query_escape h else h

unfoldable pub varied_header : Request → String → String
unfolding varied_value Headers.get
varied_header rq name = name <> (":" <> varied_value (Headers.get rq.header name))

-- GetVariedCacheKey. It overwrites the list that it is given: that is the second result.
unfoldable pub get_varied_cache_key : Request → List String → String × List String
unfolding varied_header join
get_varied_cache_key rq [] = ("", [])
get_varied_cache_key rq (name ∷ names) =
    if or_else rq.context.disable_vary false
    then ("", name ∷ names)
    else let headers = map (varied_header rq) (name ∷ names) in
      ("{-VARY-}" <> join headers ";", headers)

-- VariedHeaderAllCommaSepValues
unfoldable pub varied_header_all_comma_sep_values : Header → List String × Bool
unfolding header_all_comma_sep_values
varied_header_all_comma_sep_values h =
    let vals = header_all_comma_sep_values h "Vary" in
    if any (λ v. v == "*") vals then ("*" ∷ [], true) else (vals, false)
