-- ===== src/Middleware.antt =====
-- pkg/middleware/middleware.go: what the handler reads of its configuration, and its tests of
-- codes, headers and storers.
pub mod Writer
pub mod Lock
pub mod Evict
pub mod Freshness
pub mod Insertion
pub mod Store
pub mod Upstream
pub mod Revalidate
pub mod Lookup
pub mod Fresh
pub mod Stale
pub mod Serve
pub mod Init
use souin.Prelude.{
  ℕ, String, Bool, true, false, ◌||◌, ◌&&◌, Option, none, some, List, [], ◌∷◌, ◌++◌, ◌==◌, any, eqb,
  if◌then◌else◌,
}
use souin.Prelude.Int.{ℤ, pos}
use souin.Text.{◌<>◌, contains}
use souin.Text.Case.{to_lower, to_upper}
use souin.Text.Numbers.{itoa}
use souin.Http.Headers
use souin.Http.Headers.{Header}
use souin.Storage.{Storer}

-- The part of SouinBaseHandler and of its configuration that a request reads. find_url is
-- RegexpUrls.FindString, url_ttl the TTL of the entry of that name.
pub record Handler (S : Type 0) : Type 0 where
  pub storers : List (Storer S)
  pub default_ttl : ℤ
  pub default_cache_control : String
  pub allowed_additional_status_codes : List ℕ
  pub max_body_bytes : ℤ
  pub surrogate_disabled : Bool
  pub coalescing_disabled : Bool
  pub find_url : String → String
  pub url_ttl : String → ℤ

-- What the libraries print: http.StatusText, Header.Write, and strconv.FormatUint of xxhash.
pub record Printers : Type 0 where
  pub status_text : ℕ → String
  pub header_text : Header → String
  pub hash_key : String → String

-- The storers of the given name, in their order.
unfoldable pub named : {S : Type 0} → S → String → List (Storer S) → List (Storer S)
named s name [] = []
named s name (storer ∷ storers) =
    let rest = named s name storers in
    if storer.name s == to_upper name then storer ∷ rest else rest

unfoldable pub in_order : {S : Type 0} → S → List (Storer S) → List String → List (Storer S)
in_order s storers [] = []
in_order s storers (name ∷ names) = named s name storers ++ in_order s storers names

-- reorderStorers
unfoldable pub reorder_storers : {S : Type 0} → S → List (Storer S) → List String → List (Storer S)
unfolding in_order
reorder_storers s storers [] = storers
reorder_storers s storers (name ∷ names) = in_order s storers (name ∷ names)

abbrev pub cacheable_codes : List ℕ
cacheable_codes = 200 ∷ 203 ∷ 204 ∷ 206 ∷ 300 ∷ 301 ∷ 404 ∷ 405 ∷ 410 ∷ 414 ∷ 501 ∷ []

unfoldable pub is_code : ℕ → List ℕ → Bool
is_code code codes = any (λ c. eqb c code) codes

-- isCacheableCode
unfoldable pub is_cacheable_code : ℕ → Bool
unfolding is_code
is_cacheable_code code = is_code code cacheable_codes

-- canStatusCodeEmptyContent
unfoldable pub can_status_code_empty_content : ℕ → Bool
unfolding is_code
can_status_code_empty_content code = is_code code (204 ∷ 301 ∷ 405 ∷ [])

-- The codes for which Store and Upstream return Upstream50xError.
unfoldable pub is_upstream_50x : ℕ → Bool
unfolding is_code
is_upstream_50x code = is_code code (500 ∷ 502 ∷ 503 ∷ 504 ∷ [])

-- canBypassAuthorizationRestriction
unfoldable pub can_bypass_authorization_restriction : Header → List String → Bool
can_bypass_authorization_restriction headers bypassed =
    any (λ h. to_lower h == "authorization") bypassed
    || contains (to_lower (Headers.get headers "Vary")) "authorization"

-- hasAllowedAdditionalStatusCodesToCache
unfoldable pub has_allowed_additional_status_codes_to_cache : {S : Type 0} → Handler S → ℕ → Bool
unfolding is_code
has_allowed_additional_status_codes_to_cache s code = is_code code s.allowed_additional_status_codes

-- The two tests of a code that Store and Upstream make.
unfoldable pub caches_code : {S : Type 0} → Handler S → ℕ → Bool
caches_code s code = is_cacheable_code code || has_allowed_additional_status_codes_to_cache s code

-- dumpResponse
unfoldable pub dump_response : Printers → ℕ → Header → String → String
dump_response p status_code headers body =
    "HTTP/1.1 "
    <> (itoa (pos status_code)
        <> (" "
            <> (p.status_text status_code
                <> ("\r\n" <> (p.header_text headers <> ("\r\n" <> body))))))
