-- ===== src/Surrogate.antt =====
-- pkg/surrogate/providers: the tags (surrogate keys) of the stored responses. This file is about
-- the parts of common.go that keep no state, and about what the providers override.
pub mod Base
pub mod Tags
pub mod Unique
pub mod Store
pub mod Cdn
use souin.Prelude.{
  ℕ, String, Bool, true, false, ◌||◌, ◌*◌, not, Option, none, some, List, [], ◌∷◌, ◌==◌, map, any,
  or_else, if◌then◌else◌,
}
use souin.Prelude.Int.{ℤ, pos, negsuc}
use souin.Text.{◌<>◌, has_prefix, has_suffix, contains, split, trim_space}
use souin.Text.Escape.{query_unescape}
use souin.Http.Headers
use souin.Http.Headers.{Header}
use souin.Storage.{one_year_duration}

-- The four implementations of SurrogateInterface.
pub data Provider : Type 0 where
  akamai cloudflare fastly souin_provider : Provider

-- SurrogateFactory: the implementation for the name of the CDN.
unfoldable pub surrogate_factory : String → Provider
surrogate_factory name =
    if name == "akamai"
    then akamai
    else if name == "cloudflare"
    then cloudflare
    else if name == "fastly"
    then fastly
    else souin_provider

unfoldable pub header_separator : Provider → String
header_separator akamai = ", "
header_separator cloudflare = ","
header_separator fastly = " "
header_separator souin_provider = ", "

-- getOrderedSurrogateKeyHeadersCandidate
unfoldable pub surrogate_key_candidates : Provider → List String
surrogate_key_candidates cloudflare = "Cache-Tag" ∷ "Surrogate-Key" ∷ []
surrogate_key_candidates fastly = "Surrogate-Key" ∷ []
surrogate_key_candidates _ = "Cache-Groups" ∷ "Surrogate-Key" ∷ "Edge-Cache-Tag" ∷ "Cache-Tags" ∷ []

-- getOrderedSurrogateControlHeadersCandidate
unfoldable pub surrogate_control_candidates : Provider → List String
surrogate_control_candidates fastly =
    "Fastly-Cache-Control" ∷ "Souin-Cache-Control" ∷ "Surrogate-Control" ∷ "CDN-Cache-Control"
    ∷ "Cache-Control" ∷ []
surrogate_control_candidates _ =
    "Souin-Cache-Control" ∷ "Surrogate-Control" ∷ "CDN-Cache-Control" ∷ "Cache-Control" ∷ []

-- ParseHeaders
unfoldable pub parse_headers : Provider → String → List String
unfolding header_separator split trim_space
parse_headers p value = map trim_space (split value (header_separator p))

-- The loop of getCandidateHeader: the first candidate that the header has.
unfoldable pub find_candidate : Header → List String → Option (String × String)
unfolding Headers.get
find_candidate h [] = none
find_candidate h (c ∷ cs) =
    if not (Headers.get h c == "") then some (c, Headers.get h c) else find_candidate h cs

abbrev pub last : String → List String → String
last d [] = d
last d (c ∷ cs) = last c cs

unfoldable pub candidate_header : Header → List String → String × String
unfolding find_candidate
candidate_header h candidates = or_else (find_candidate h candidates) (last "" candidates, "")

-- GetSurrogateControl
unfoldable pub surrogate_control : Provider → Header → String × String
unfolding candidate_header surrogate_control_candidates
surrogate_control p h = candidate_header h (surrogate_control_candidates p)

-- getSurrogateKey
unfoldable pub surrogate_key : Provider → Header → String
unfolding candidate_header surrogate_key_candidates
surrogate_key p h = (candidate_header h (surrogate_key_candidates p)).1

unfoldable pub is_safe_http_method : String → Bool
is_safe_http_method method =
    method == "GET" || method == "HEAD" || method == "OPTIONS" || method == "TRACE"

-- What uniqueTag adds to its list: url.QueryUnescape gives "" beside an error.
unfoldable pub decoded_tag : String → String
unfolding contains query_unescape
decoded_tag tag = if contains tag "%" then or_else (query_unescape tag) "" else tag

-- The loop of uniqueTag; `seen` are the keys of its map.
unfoldable pub unique_from : List String → List String → List String
unfolding decoded_tag
unique_from seen [] = []
unique_from seen (tag ∷ tags) =
    let skip = tag == "" || any (λ s. s == tag) seen in
    let rest = unique_from (if skip then seen else tag ∷ seen) tags in
    if skip then rest else decoded_tag tag ∷ rest

unfoldable pub unique_tag : List String → List String
unfolding unique_from
unique_tag tags = unique_from [] tags

-- containsCacheKey
unfoldable pub contains_cache_key : String → String → Bool
unfolding has_prefix has_suffix contains
contains_cache_key current_value cache_key =
    if current_value == ""
    then false
    else if current_value == cache_key
    then true
    else if has_prefix current_value (cache_key <> ",")
    then true
    else if has_suffix current_value ("," <> cache_key)
    then true
    else if contains current_value (("," <> cache_key) <> ",")
    then true
    else false

-- candidateStore
unfoldable pub candidate_store : String → Bool
unfolding contains
candidate_store tag = not (contains tag "no-store")

-- storageToInfiniteTTLMap; a name that the map lacks gives 0.
unfoldable pub infinite_ttl : String → ℤ
infinite_ttl name =
    if name == "BADGER" || name == "ETCD" || name == "OLRIC" || name == "OTTER" || name == "DEFAULT"
    then one_year_duration
    else if name == "REDIS"
    then negsuc 0
    else pos 0
