-- ===== src/Middleware/Store.antt =====
-- (*SouinBaseHandler).Store of pkg/middleware/middleware.go. The state is that of the surrogate's
-- storage, whose field `storage` holds all storages. The storers are asked in their order, where
-- the code asks them in goroutines. `none` is a panic.
pub mod Keeping
pub mod Varied
pub mod Kept
pub mod Laws
pub mod Found
use souin.Prelude.{
  ℕ, String, Bool, true, false, ◌||◌, ◌&&◌, not, Option, none, some, List, [], ◌∷◌, ◌++◌, ◌==◌,
  ◌>>=◌, length, is_some, ltb, or_else, if◌then◌else◌,
}
use souin.Prelude.Int.{ℤ, pos, ltb_ℤ}
use souin.Text.{◌<>◌, contains, count, split, join}
use souin.Text.Case.{to_lower}
use souin.Text.Numbers.{itoa}
use souin.Clock.{Dates, sub_duration, sub_time}
use souin.Http.{Request, ContextValues}
use souin.Http.Headers
use souin.Http.Headers.{Header, first}
use souin.Storage.{Storer}
use souin.Surrogate.{surrogate_control}
use souin.Surrogate.Base.{BaseStorage}
use souin.Surrogate.Cdn.{provider_store}
use souin.Rfc.{
  RequestDirectives, ResponseDirectives, CacheControl, header_all_comma_sep_values_string,
}
use souin.Rfc.Vary.{get_varied_cache_key, varied_header_all_comma_sep_values}
use souin.Rfc.CacheStatus.{stored_ttl_header, stored_length_header, get_cache_key_from_ctx}
use souin.Middleware.{
  Handler, Printers, caches_code, is_upstream_50x, can_status_code_empty_content,
  can_bypass_authorization_restriction, has_allowed_additional_status_codes_to_cache, dump_response,
}
use souin.Middleware.Insertion.{StoredKeys, stored_keys, store_in}
use souin.Middleware.Writer.{CustomWriter, header, change_header}
use souin.Middleware.Freshness.{zero_time, matched_ttl, freshness, allows_store}

unfoldable pub set_cache_status : String → CustomWriter → CustomWriter
set_cache_status status w = change_header (λ h. Headers.set h "Cache-Status" status) w

-- The status of a response that is not stored, with its reason.
unfoldable pub miss : ContextValues → String → String
miss ctx detail =
    ctx.cache_name
    <> ("; fwd=uri-miss; key=" <> (get_cache_key_from_ctx ctx <> ("; detail=" <> detail)))

-- The name of the header with the controls, and the writer in which it is not empty without need.
unfoldable pub with_default_control :
    {S : Type 0} → Handler S → BaseStorage S → CustomWriter → String × CustomWriter
with_default_control s base w =
    let (name, control) = surrogate_control base.parent (header w) in
    (
      name,
      if control == ""
          then change_header (λ h. Headers.set h name s.default_cache_control) w
          else w,
    )

-- The test that keeps private responses, and those to authorized requests, out of the storages.
unfoldable pub is_restricted : Request → ResponseDirectives → Header → Bool
is_restricted rq cc h =
    not rq.context.mode.bypass_request
    && ((cc.private_present || not (Headers.get rq.header "Authorization" == ""))
        && not (can_bypass_authorization_restriction h rq.context.ignored_headers))

-- The fields that no-cache names are left out of the stored response.
unfoldable pub without_fields : List (String × Bool) → Header → Header
without_fields [] h = h
without_fields ((name, should_delete) ∷ fields) h =
    without_fields fields (if should_delete then Headers.del h name else h)

abbrev pub set_if_missing : String → String → Header → Header
set_if_missing name v h = if Headers.get h name == "" then Headers.set h name v else h

-- The header of the stored response, before its length is noted.
unfoldable pub response_header : Dates → ℤ → List (String × Bool) → String → Header → Header
response_header dates now no_cache b h =
    set_if_missing "Content-Length" (itoa (pos (count b)))
      (set_if_missing "Date" (dates.format_time now) (without_fields no_cache h))

unfoldable pub is_too_large : ℤ → String → Bool
is_too_large max_size b = ltb_ℤ (pos 0) max_size && ltb_ℤ max_size (pos (count b))

-- Whether a response with this body can be stored.
unfoldable pub has_content : {S : Type 0} → Handler S → Request → ℕ → String → Bool
has_content s rq code b =
    ltb 0 (count b)
    || (rq.method == "HEAD"
        || (can_status_code_empty_content code
            || has_allowed_additional_status_codes_to_cache s code))

-- The result of Store where it returns no error.
abbrev pub without_error : {A B : Type 0} → Option (A × B) → Option (Bool × A × B)
without_error none = none
without_error (some (a, b)) = some (false, a, b)

module _ {S : Type 0} (st : Storer S) (dates : Dates) (control : CacheControl) (p : Printers)
    (s : Handler S) where
  -- The end of Store for a response with its varied headers: the status, and the state.
  unfoldable pub store_varied :
      ℤ
      → Request
      → String
      → String
      → Header
      → String
      → ℤ
      → List String
      → String
      → BaseStorage S
      → Option (String × BaseStorage S)
  store_varied now rq cached_key uri h response ma varied status base =
      let keys = stored_keys p rq cached_key varied in
      let stored : Option (String × BaseStorage S) =
        elim (store_in s.storers now keys response h ma base.storage) [
          | none ↦ none
          | some (fails, storage) ↦
              let base' = record base { storage = storage } in
              let surrogates =
                if s.surrogate_disabled
                then base'
                else (provider_store st now (Headers.del h "X-Souin-Storer") keys.varied_key uri
                    base').1 in
              some (
                if ltb (length fails) (length s.storers)
                then (status <> ("; stored" <> join fails ""), surrogates)
                else (status <> join fails "", base'))
        ] in
      if is_some rq.context.error
      then some (status <> "; detail=REQUEST-CANCELED-OR-UPSTREAM-BROKEN-PIPE", base)
      else stored

  -- What Store does with a response that the directives allow to store: the status to which the
  -- key is added, and the state.
  unfoldable pub store_allowed :
      ℤ
      → Request
      → String
      → String
      → CustomWriter
      → ResponseDirectives
      → ℤ
      → String
      → BaseStorage S
      → Option (String × BaseStorage S)
  store_allowed now rq cached_key uri w cc ma status base =
      let h = response_header dates rq.context.now cc.no_cache w.buf (header w) in
      let noted = Headers.set h stored_length_header (Headers.get h "Content-Length") in
      let response = dump_response p w.status_code noted w.buf in
      let (varied, is_vary_star) = varied_header_all_comma_sep_values noted in
      let stored = store_varied now rq cached_key uri noted response ma varied status base in
      if is_too_large s.max_body_bytes w.buf
      then some (status <> "; detail=UPSTREAM-RESPONSE-TOO-LARGE", base)
      else if not (has_content s rq w.status_code w.buf)
      then some (status <> "; detail=UPSTREAM-ERROR-OR-EMPTY-RESPONSE", base)
      else if is_vary_star
      then some (status <> "; detail=UPSTREAM-VARY-STAR", base)
      else stored

  -- Store, once the freshness is known: the duration is noted in a header, and what remains of it is
  -- the duration in the storages.
  unfoldable pub store_fresh :
      ℤ
      → Request
      → RequestDirectives
      → String
      → String
      → CustomWriter
      → ResponseDirectives
      → ℤ × Bool
      → BaseStorage S
      → Option (CustomWriter × BaseStorage S)
  store_fresh now rq request_cc cached_key uri w cc (duration, has_freshness) base =
      let noted =
        change_header (λ h. Headers.set h stored_ttl_header (dates.duration_string duration)) w in
      let date = or_else (dates.parse_time (dates.format_time rq.context.now)) zero_time in
      let ma = sub_duration duration (sub_time now date) in
      let status = rq.context.cache_name <> "; fwd=uri-miss" in
      let key = "; key=" <> get_cache_key_from_ctx rq.context in
      let stored : Option (CustomWriter × BaseStorage S) =
        elim (store_allowed now rq cached_key uri noted cc ma status base) [
          | none ↦ none
          | some (status', base') ↦ some (set_cache_status (status' <> key) noted, base')
        ] in
      if allows_store rq.context.mode request_cc cc has_freshness
      then stored
      else some (set_cache_status (status <> ("; detail=NO-STORE-DIRECTIVE" <> key)) noted, base)

  -- Store, for a response whose controls are parsed.
  unfoldable pub store_parsed :
      ℤ
      → Request
      → RequestDirectives
      → String
      → String
      → CustomWriter
      → ResponseDirectives
      → BaseStorage S
      → Option (CustomWriter × BaseStorage S)
  store_parsed now rq request_cc cached_key uri w cc base =
      let fresh : Option (CustomWriter × BaseStorage S) =
        elim (freshness dates now rq.context.mode (matched_ttl s rq) cc (header w)) [
          | none ↦ some (w, base)
          | some f ↦ store_fresh now rq request_cc cached_key uri w cc f base
        ] in
      if is_restricted rq cc (header w)
      then some (set_cache_status (miss rq.context "PRIVATE-OR-AUTHENTICATED-RESPONSE") w, base)
      else fresh

  -- Store. The flag is the error Upstream50xError.
  unfoldable pub store :
      ℤ
      → Request
      → RequestDirectives
      → String
      → String
      → CustomWriter
      → BaseStorage S
      → Option (Bool × CustomWriter × BaseStorage S)
  store now rq request_cc cached_key uri w base =
      let (name, w') = with_default_control s base w in
      let parsed : Option (CustomWriter × BaseStorage S) =
        elim (control.parse_response (header_all_comma_sep_values_string (header w') name)) [
          | none ↦
              some (set_cache_status (miss rq.context "INVALID-RESPONSE-CACHE-CONTROL") w', base)
          | some cc ↦ store_parsed now rq request_cc cached_key uri w' cc base
        ] in
      if caches_code s w.status_code
      then without_error parsed
      else some (
        is_upstream_50x w.status_code,
        set_cache_status (miss rq.context "UNCACHEABLE-STATUS-CODE") w,
        base,
      )
