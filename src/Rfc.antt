-- ===== src/Rfc.antt =====
-- pkg/rfc: the cache control of requests and responses, and the lists in headers (utils.go).
pub mod Vary
pub mod Age
pub mod Revalidation
pub mod CacheStatus
use souin.Prelude.{String, Bool, Option, List, map, concat}
use souin.Prelude.Int.{ℤ}
use souin.Text.{split, join, trim_space}
use souin.Http.Headers
use souin.Http.Headers.{Header}

-- What the program reads of cacheobject.RequestCacheDirectives; -1 is an absent delta.
pub record RequestDirectives : Type 0 where
  pub max_age : ℤ
  pub max_stale : ℤ
  pub max_stale_set : Bool
  pub min_fresh : ℤ
  pub no_cache : Bool
  pub no_store : Bool
  pub only_if_cached : Bool
  pub stale_if_error : ℤ

-- What it reads of cacheobject.ResponseCacheDirectives; no_cache are the fields of no-cache.
pub record ResponseDirectives : Type 0 where
  pub must_revalidate : Bool
  pub no_cache : List (String × Bool)
  pub no_cache_present : Bool
  pub no_store : Bool
  pub private_present : Bool
  pub max_age : ℤ
  pub s_max_age : ℤ
  pub stale_if_error : ℤ
  pub stale_while_revalidate : ℤ

-- The parsers of cacheobject. `none` is an error: the object is nil then.
pub record CacheControl : Type 0 where
  pub parse_request : String → Option RequestDirectives
  pub parse_response : String → Option ResponseDirectives

-- HeaderAllCommaSepValues
unfoldable pub header_all_comma_sep_values : Header → String → List String
unfolding split trim_space Headers.values
header_all_comma_sep_values h name =
    concat (map (λ v. map trim_space (split v ",")) (Headers.values h name))

-- HeaderAllCommaSepValuesString
unfoldable pub header_all_comma_sep_values_string : Header → String → String
unfolding header_all_comma_sep_values join
header_all_comma_sep_values_string h name = join (header_all_comma_sep_values h name) ", "

-- The response's Cache-Control, parsed.
abbrev pub response_cache_control : CacheControl → Header → Option ResponseDirectives
response_cache_control control h =
    control.parse_response (header_all_comma_sep_values_string h "Cache-Control")
