-- ===== src/Middleware/Fresh.antt =====
-- ServeHTTP of pkg/middleware/middleware.go, for a fresh response that a storage has. Also what the
-- branches of ServeHTTP share: their result, and the environment that they take.
use souin.Prelude.{String, Bool, true, false, ◌&&◌, not, Option, none, some, ◌==◌, if◌then◌else◌}
use souin.Prelude.Int.{ℤ}
use souin.Clock.{Dates}
use souin.Http.{Request, Response}
use souin.Storage.{Storer, Revalidator}
use souin.Surrogate.Base.{BaseStorage}
use souin.Rfc.{RequestDirectives, CacheControl, header_all_comma_sep_values_string}
use souin.Rfc.Age.{validate_max_age_cached_response}
use souin.Middleware.{Handler, Printers}
use souin.Middleware.Writer.{CustomWriter, ServeContent, write_header, write, send}
use souin.Middleware.Upstream.{ServeError, Flight, Next}
use souin.Middleware.Revalidate.{revalidate, backfill_storers}
use souin.Middleware.Lookup.{Found, with_cache_status, copy_header, put_response}

-- A branch serves the request, with its error, or leaves it to the upstream server.
pub data Outcome (S : Type 0) : Type 0 where
  served : Option ServeError → CustomWriter → BaseStorage S → Outcome S
  passed : CustomWriter → BaseStorage S → Outcome S

-- A request that is being served: the time, the outcome of singleflight for a revalidation, the
-- request, its directives, its key, and its path.
pub record Serving : Type 0 where
  pub now : ℤ
  pub flight : Flight
  pub req : Request
  pub request_cc : RequestDirectives
  pub cached_key : String
  pub uri : String

module _ {S : Type 0} (st : Storer S) (dates : Dates) (control : CacheControl) (p : Printers)
    (serve_content : ServeContent) (s : Handler S) (next : Next) where
  abbrev sent : CustomWriter → CustomWriter
  sent w = send dates serve_content w

  -- Revalidate and Send.
  unfoldable pub revalidate_and_send :
      Serving → Revalidator → CustomWriter → BaseStorage S → Option (Outcome S)
  revalidate_and_send r v w base =
      elim (revalidate st dates control p s next r.now r.flight v r.req r.request_cc r.cached_key
        r.uri w base) [
          | none ↦ none
          | some (error, w', base') ↦ some (served error (sent w') base')
        ]

  -- The answer to a request whose entity tag matches that of the response.
  unfoldable pub serve_matched : Revalidator → Response → CustomWriter → CustomWriter
  serve_matched v response w =
      let copied = copy_header response w in
      if v.not_modified
      then sent (record (write_header 304 copied) { buf = "" })
      else sent (write response.body (write_header response.status_code copied))

  -- The end of the branch: the response is served if it is young enough.
  unfoldable pub serve_young :
      Serving → Response → CustomWriter → BaseStorage S → Option (Outcome S)
  serve_young r response w base =
      let hit = served none (sent (put_response response w)) base in
      let checked : Option (Outcome S) =
        elim (validate_max_age_cached_response control r.request_cc response) [
          | none ↦ none
          | some young ↦ some (if young then hit else passed w base)
        ] in
      if not r.req.context.mode.strict then some hit else checked

  -- Whether the stored response asks for a revalidation; `none` is the panic on controls that do not
  -- parse.
  unfoldable pub forces_revalidation : Request → String → Response → Option Bool
  forces_revalidation req header_name response =
      let parsed : Option Bool =
        elim (control.parse_response
          (header_all_comma_sep_values_string response.header header_name)) [
            | none ↦ none
            | some cc ↦ some cc.no_cache_present
          ] in
      if req.context.mode.bypass_response then some false else parsed

  -- The branch, after the storers before are filled.
  unfoldable pub serve_hit :
      Serving → String → Found S → Response → CustomWriter → BaseStorage S → Option (Outcome S)
  serve_hit r header_name found response w base =
      let v = found.validator in
      let stamped = with_cache_status dates r.now r.req found.storer_name response in
      let unforced : Option (Outcome S) = elim (forces_revalidation r.req header_name response) [
        | none ↦ none
        | some true ↦ revalidate_and_send r v w base
        | some false ↦ serve_young r stamped w base
      ] in
      if not (v.response_etag == "") && v.matched
      then some (served none (serve_matched v stamped w) base)
      else if not r.req.context.mode.bypass_request && v.need_revalidation
      then revalidate_and_send r v w base
      else unforced

  -- The branch for a fresh response.
  unfoldable pub serve_fresh :
      Serving → String → Found S → Response → CustomWriter → BaseStorage S → Option (Outcome S)
  serve_fresh r header_name found response w base =
      elim (backfill_storers dates p r.now found.earlier r.cached_key r.req response base.storage) [
        | none ↦ none
        | some storage ↦
            serve_hit r header_name found response w (record base { storage = storage })
      ]
