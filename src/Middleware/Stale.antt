-- ===== src/Middleware/Stale.antt =====
-- ServeHTTP of pkg/middleware/middleware.go, for a stale response that a storage has.
use souin.Prelude.{
  ℕ, String, Bool, ◌||◌, ◌&&◌, not, Option, none, some, [], ◌∷◌, ◌++◌, or_else, eqb, if◌then◌else◌,
}
use souin.Prelude.Int.{ℤ, pos, negsuc, ltb_ℤ}
use souin.Text.{◌<>◌}
use souin.Text.Numbers.{itoa}
use souin.Clock.{Dates, seconds}
use souin.Http
use souin.Http.{Request, Response}
use souin.Http.Headers
use souin.Http.Headers.{Header}
use souin.Storage.{Storer, Revalidator}
use souin.Surrogate.Base.{BaseStorage}
use souin.Rfc.{RequestDirectives, ResponseDirectives, CacheControl, response_cache_control}
use souin.Rfc.Age.{validate_max_age_cached_stale_response}
use souin.Rfc.CacheStatus.{stored_ttl_header}
use souin.Middleware.{Handler, Printers}
use souin.Middleware.Writer.{CustomWriter, ServeContent, new_custom_writer, write_header, send}
use souin.Middleware.Upstream.{Next}
use souin.Middleware.Revalidate.{revalidate}
use souin.Middleware.Lookup.{Found, with_cache_status, with_stale, put_response}
use souin.Middleware.Fresh.{Outcome, served, passed, Serving}

-- The seconds that the stored duration adds to the limits of a stale response.
unfoldable pub added_time : Dates → Response → ℤ
added_time dates response =
    seconds (or_else (dates.parse_duration (Headers.get response.header stored_ttl_header)) (pos 0))

unfoldable pub takes_stale_on_error : RequestDirectives → ResponseDirectives → Bool
takes_stale_on_error request_cc cc =
    ltb_ℤ (negsuc 0) cc.stale_if_error || ltb_ℤ (pos 0) request_cc.stale_if_error

-- The response that is served in place of a failed revalidation with this code.
unfoldable pub instead_of : ℕ → Response → Response
instead_of code response =
    let hit = with_stale response in
    record hit {
      header =
          Headers.set hit.header "Cache-Status"
            (Headers.get hit.header "Cache-Status" <> ("; fwd-status=" <> itoa (pos code)));
    }

-- The request with the entity tag of the response in If-None-Match.
unfoldable pub with_etag : Revalidator → Request → Request
with_etag v req = record req {
  header =
      Headers.put "If-None-Match"
        (Headers.lookup "If-None-Match" req.header ++ v.response_etag ∷ []) req.header;
}

unfoldable pub must_revalidate : Request → Revalidator → ResponseDirectives → Bool
must_revalidate req v cc =
    req.context.mode.bypass_response
    || (cc.must_revalidate || (cc.no_cache_present || v.need_revalidation))

module _ {S : Type 0} (st : Storer S) (dates : Dates) (control : CacheControl) (p : Printers)
    (serve_content : ServeContent) (s : Handler S) (next : Next) where
  abbrev sent : CustomWriter → CustomWriter
  sent w = send dates serve_content w

  -- A stale response, marked as stale, is sent.
  unfoldable pub serve_stale : Response → CustomWriter → CustomWriter
  serve_stale response w = sent (put_response (with_stale response) w)

  -- A response takes the place of one that could not be revalidated.
  unfoldable pub serve_instead : ℕ → Response → CustomWriter → CustomWriter
  serve_instead code response w =
      sent (put_response (instead_of code response) (record w { buf = "" }))

  -- stale-while-revalidate: the response is sent without the mark, and the revalidation follows with
  -- a writer of its own.
  unfoldable pub serve_while_revalidate :
      Serving → Revalidator → Response → CustomWriter → BaseStorage S → Option (Outcome S)
  serve_while_revalidate r v response w base =
      let w' = sent (put_response response w) in
      elim (revalidate st dates control p s next r.now r.flight v r.req r.request_cc r.cached_key
        r.uri (new_custom_writer r.req w'.rw "") base) [
          | none ↦ none
          | some (_, _, base') ↦ some (served none w' base')
        ]

  -- What is sent after a revalidation without an error, with its code in the writer.
  unfoldable pub serve_revalidated :
      Serving → Revalidator → String → Response → CustomWriter → CustomWriter
  serve_revalidated r v storer_name response w =
      let client_conditional = v.if_none_match_present || v.if_modified_since_present in
      if eqb w.status_code 304 && (not v.matched || not client_conditional)
      then sent (put_response (with_cache_status dates r.now r.req storer_name response) w)
      else if not (eqb w.status_code 304) && (v.matched && client_conditional)
      then sent (record (write_header 304 w) { buf = "" })
      else sent w

  -- The revalidation of a stale response.
  unfoldable pub revalidate_stale :
      Serving
      → Revalidator
      → String
      → ResponseDirectives
      → Response
      → CustomWriter
      → BaseStorage S
      → Option (Outcome S)
  revalidate_stale r v storer_name cc response w base =
      elim (revalidate st dates control p s next r.now r.flight v (with_etag v r.req) r.request_cc
        r.cached_key r.uri w base) [
          | none ↦ none
          | some (none, w', base') ↦
              some (served none (serve_revalidated r v storer_name response w') base')
          | some (some _, w', base') ↦ some (
              served none
                (if takes_stale_on_error r.request_cc cc
                  then serve_instead w'.status_code response w'
                  else sent (record w' { buf = ""; rw = Http.write_header 504 w'.rw }))
                base')
        ]

  -- The branch for a request that takes stale responses.
  unfoldable pub serve_max_stale :
      Serving → Found S → Response → CustomWriter → BaseStorage S → Option (Outcome S)
  serve_max_stale r found response w base =
      let add_time = added_time dates response in
      let stamped = with_cache_status dates r.now r.req found.storer_name response in
      let v = found.validator in
      elim (response_cache_control control stamped.header) [
        | none ↦ none
        | some cc ↦
            if ltb_ℤ (pos 0) cc.stale_while_revalidate
            then serve_while_revalidate r v stamped w base
            else if must_revalidate r.req v cc
            then revalidate_stale r v found.storer_name cc stamped w base
            else if not r.req.context.mode.strict
                || validate_max_age_cached_stale_response r.request_cc (some cc) stamped add_time
            then some (served none (serve_stale stamped w) base)
            else some (passed w base)
      ]

  -- stale-if-error: the response is served only if the revalidation fails; otherwise the request
  -- goes on to the upstream server.
  unfoldable pub serve_on_error :
      Serving → Revalidator → Response → CustomWriter → BaseStorage S → Option (Outcome S)
  serve_on_error r v response w base =
      elim (revalidate st dates control p s next r.now r.flight v r.req r.request_cc r.cached_key
        r.uri w base) [
          | none ↦ none
          | some (none, w', base') ↦ some (passed w' base')
          | some (some _, w', base') ↦
              some (served none (serve_instead w'.status_code response w') base')
        ]

  -- The branch for any other request.
  unfoldable pub serve_other_stale :
      Serving → Found S → Response → CustomWriter → BaseStorage S → Option (Outcome S)
  serve_other_stale r found response w base =
      let stamped = with_cache_status dates r.now r.req found.storer_name response in
      let allowed =
        validate_max_age_cached_stale_response r.request_cc
          (response_cache_control control response.header) response (added_time dates response) in
      let on_error : Option (Outcome S) = elim (response_cache_control control stamped.header) [
        | none ↦ none
        | some cc ↦
            if takes_stale_on_error r.request_cc cc
            then serve_on_error r found.validator stamped w base
            else some (passed w base)
      ] in
      if not r.req.context.mode.strict
      then some (served none (serve_stale stamped w) base)
      else if allowed
      then on_error
      else some (passed w base)
