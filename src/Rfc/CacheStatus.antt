-- ===== src/Rfc/CacheStatus.antt =====
-- pkg/rfc/cache_status.go: the header Cache-Status.
pub mod Hits
use souin.Prelude.{
  ℕ, String, Bool, true, false, ◌&&◌, ◌||◌, not, Option, none, some, List, [], ◌∷◌, ◌==◌, is_some,
  or_else, if◌then◌else◌,
}
use souin.Prelude.Int.{ℤ, pos, ◌+ℤ◌, ◌-ℤ◌, ltb_ℤ, leb_ℤ}
use souin.Text.{◌<>◌}
use souin.Text.Numbers.{itoa, atoi}
use souin.Clock.{Dates, wrap64, sub_time, seconds, ceil_seconds}
use souin.Http.{Response, ContextValues}
use souin.Http.Headers
use souin.Http.Headers.{Header}
use souin.Rfc.{RequestDirectives, CacheControl, response_cache_control}

abbrev pub stored_ttl_header : String
stored_ttl_header = "X-Souin-Stored-TTL"

abbrev pub stored_length_header : String
stored_length_header = "X-Souin-Stored-Length"

-- SetRequestCacheStatus
unfoldable pub set_request_cache_status : Header → String → String → Header
unfolding Headers.set
set_request_cache_status h header cache_name =
    Headers.set h "Cache-Status" (cache_name <> ("; fwd=request; detail=" <> header))

-- setMalformedHeader
unfoldable pub set_malformed_header : Header → String → String → Header
unfolding set_request_cache_status
set_malformed_header h header cache_name =
    set_request_cache_status h ("MALFORMED-" <> header) cache_name

-- validateTimeHeader
unfoldable pub validate_time_header : Dates → Header → String → String → String → Bool × Header
unfolding set_malformed_header
validate_time_header dates h header t cache_name =
    if is_some (dates.parse_time t)
    then (true, h)
    else (false, set_malformed_header h header cache_name)

-- validateEmptyHeaders: the names of the two headers, as they are and in upper case.
unfoldable pub validate_empty_headers : Dates → List (String × String) → String → Header → Header
unfolding validate_time_header Headers.get
validate_empty_headers dates [] cache_name h = h
validate_empty_headers dates ((name, upper_name) ∷ names) cache_name h =
    let v = Headers.get h name in
    let (valid, h') = validate_time_header dates h upper_name v cache_name in
    let next = validate_empty_headers dates names cache_name (if v == "" then h else h') in
    if v == "" || valid then next else h'

abbrev pub empty_headers : List (String × String)
empty_headers = ("Expires", "EXPIRES") ∷ ("Last-Modified", "LAST-MODIFIED") ∷ []

-- GetCacheKeyFromCtx
unfoldable pub get_cache_key_from_ctx : ContextValues → String
get_cache_key_from_ctx ctx =
    if or_else ctx.displayable_key false then or_else ctx.key "*****" else "*****"

-- HitStaleCache
unfoldable pub hit_stale_cache : Header → Header
unfolding Headers.get Headers.set
hit_stale_cache h = Headers.set h "Cache-Status" (Headers.get h "Cache-Status" <> "; fwd=stale")

-- ValidateCacheControl of a stored response, with the headers that it leaves.
unfoldable pub validate_cache_control :
    Dates → CacheControl → ℤ → ContextValues → RequestDirectives → Header → Bool × Header
unfolding set_malformed_header Headers.get
validate_cache_control dates control now ctx request_cc h =
    let min_fresh : Bool = elim (dates.parse_time (Headers.get h "Date")) [
      | none ↦ false
      | some t ↦ ltb_ℤ request_cc.min_fresh (seconds (sub_time now t))
    ] in
    if not (is_some (response_cache_control control h))
    then (false, set_malformed_header h "CACHE-CONTROL" ctx.cache_name)
    else if leb_ℤ (pos 0) request_cc.min_fresh
    then (min_fresh, h)
    else (true, h)

-- The second half of manageAge, once the Date is parsed. The sum of the ages wraps; the seconds of two
-- durations are far from the ends of int64, so their difference does not.
unfoldable pub set_age : Dates → ℤ → ℤ → Header → ℤ → String → String → String → Header
set_age dates utc1 utc2 h ttl cache_name key storer_name =
    let stored = Headers.get h stored_ttl_header in
    let ttl' = if stored == "" then ttl else or_else (dates.parse_duration stored) (pos 0) in
    let h' = if stored == "" then h else Headers.del h stored_ttl_header in
    let apparent = sub_time utc1 utc2 in
    let apparent_age = if ltb_ℤ apparent (pos 0) then pos 0 else apparent in
    let old_age = or_else (atoi (Headers.get h' "Age")) (pos 0) in
    let cage = ceil_seconds apparent_age in
    let aged = Headers.set h' "Age" (itoa (wrap64 (old_age +ℤ cage))) in
    Headers.set aged "Cache-Status" (
      cache_name
      <> ("; hit; ttl="
          <> (itoa (seconds ttl' -ℤ cage) <> ("; key=" <> (key <> ("; detail=" <> storer_name))))))

-- manageAge
unfoldable pub manage_age : Dates → ℤ → Header → ℤ → String → String → String → Header
unfolding validate_time_header set_age Headers.get Headers.set
manage_age dates utc1 h ttl cache_name key storer_name =
    let dh = Headers.get h "Date" in
    let dated = if dh == "" then Headers.set h "Date" (dates.format_time utc1) else h in
    let (valid, malformed) = validate_time_header dates h "DATE" dh cache_name in
    let result : Header = elim (dates.parse_time (Headers.get dated "Date")) [
      | none ↦ dated
      | some utc2 ↦ set_age dates utc1 utc2 dated ttl cache_name key storer_name
    ] in
    if not (dh == "") && not valid then malformed else result

-- SetCacheStatusHeader
unfoldable pub set_cache_status_header : Dates → ℤ → ContextValues → Header → String → Header
unfolding validate_empty_headers manage_age get_cache_key_from_ctx
set_cache_status_header dates now ctx h storer_name =
    manage_age dates now (validate_empty_headers dates empty_headers ctx.cache_name h) (pos 0)
      ctx.cache_name (get_cache_key_from_ctx ctx) storer_name
