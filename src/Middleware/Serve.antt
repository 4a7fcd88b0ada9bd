-- ===== src/Middleware/Serve.antt =====
-- ServeHTTP of pkg/middleware/middleware.go. The next handler is given twice: as it writes to the
-- ResponseWriter of the server, with the last code that it gives to WriteHeader (0 for none), and as it
-- writes through a CustomWriter. Whether the request's context ends before the upstream server answers
-- is an argument; the goroutine that goes on then is not followed. `none` is a panic.
pub mod Laws
use souin.Prelude.{
  ℕ, String, Bool, true, false, ◌||◌, ◌&&◌, not, Option, none, some, List, [], ◌∷◌, ◌==◌, is_some,
  or_else, ltb, if◌then◌else◌,
}
use souin.Prelude.Int.{ℤ, pos, negsuc, ltb_ℤ}
use souin.Text.{◌<>◌, contains}
use souin.Clock.{Dates}
use souin.Http
use souin.Http.{Request, ResponseWriter, ContextError, deadline_exceeded, canceled}
use souin.Http.Headers
use souin.Http.Headers.{Header}
use souin.Storage.{Storer, mapping_key_prefix}
use souin.Surrogate.{surrogate_control}
use souin.Surrogate.Base.{BaseStorage, invalidate}
use souin.Rfc.{RequestDirectives, CacheControl, header_all_comma_sep_values_string}
use souin.Rfc.Revalidation.{parse_request}
use souin.Context.{Context, set_base_context, set_context}
use souin.Middleware.{Handler, Printers}
use souin.Middleware.Writer.{CustomWriter, ServeContent, new_custom_writer, header, send}
use souin.Middleware.Upstream.{
  ServeError, upstream_50x, context_failed, Flight, Next, Result, upstream,
}
use souin.Middleware.Lookup.{Found, lookup_from, admitted}
use souin.Middleware.Fresh.{Outcome, served, passed, Serving, serve_fresh}
use souin.Middleware.Stale.{serve_max_stale, serve_other_stale}

-- The next handler on the server's writer: its error, the code that it gave, and the writer.
abbrev pub PlainNext : Type 0
PlainNext = Request → ResponseWriter → Option ServeError × ℕ × ResponseWriter

-- What a request meets: the time, the ends of concurrent calls, and the end of its context.
pub record Weather : Type 0 where
  pub now : ℤ
  pub flight : Flight
  pub flights : List Flight
  pub timeout : Option ContextError

-- The functions that the context of a request is computed with.
pub record ContextFunctions : Type 0 where
  pub hash : String → String
  pub replace_all : String → Request → String
  pub matches : String → String → Bool
  pub encode_query : String → String

abbrev pub Answer : Type 0 → Type 0
Answer S = Option (Option ServeError × ResponseWriter × BaseStorage S)

-- An endpoint of the administration.
abbrev pub Endpoint : Type 0 → Type 0
Endpoint S = Request → ResponseWriter → BaseStorage S → Option (ResponseWriter × BaseStorage S)

-- HandleInternally
unfoldable pub handle_internally : {H : Type 0} → List (String × H) → Request → Option H
handle_internally [] r = none
handle_internally ((k, handler) ∷ handlers) r =
    if contains r.request_uri k then some handler else handle_internally handlers r

-- The requests that are never looked up: websockets, event streams, and excluded URIs.
unfoldable pub is_excluded : (String → Bool) → Request → Bool
is_excluded excluded rq =
    Headers.get rq.header "Upgrade" == "websocket"
    || (Headers.get rq.header "Accept" == "text/event-stream" || excluded rq.request_uri)

unfoldable pub bypass_status : String → String → ResponseWriter → ResponseWriter
bypass_status cache_name detail rw = record rw {
  header = Headers.set rw.header "Cache-Status" (cache_name <> ("; fwd=bypass; detail=" <> detail));
}

-- Whether the request takes a stale response without more.
unfoldable pub takes_stale : RequestDirectives → Bool
takes_stale request_cc =
    not request_cc.only_if_cached
    && (request_cc.max_stale_set || ltb_ℤ (negsuc 0) request_cc.max_stale)

-- The directives of a request that have no meaning.
abbrev pub no_request_directives : RequestDirectives
no_request_directives = record {
  max_age = negsuc 0;
  max_stale = negsuc 0;
  max_stale_set = false;
  min_fresh = negsuc 0;
  no_cache = false;
  no_store = false;
  only_if_cached = false;
  stale_if_error = negsuc 0;
}

-- The key that the storers are asked for.
abbrev pub lookup_key : Printers → Request → String → String
lookup_key p req cached_key = if req.context.hashed then p.hash_key cached_key else cached_key

module _ {S : Type 0} (st : Storer S) (dates : Dates) (control : CacheControl) (p : Printers)
    (serve_content : ServeContent) (s : Handler S) (next : Next) (plain : PlainNext) (c : Context)
    (cf : ContextFunctions) where
  abbrev in_context : Request → Request
  in_context req = set_context cf.hash cf.replace_all cf.matches cf.encode_query c req

  abbrev invalidated : ℤ → Request → ResponseWriter → BaseStorage S → BaseStorage S
  invalidated now req rw base =
      if s.surrogate_disabled then base else invalidate st now req.method rw.header base

  -- A request that bypasses the cache, and whose response may invalidate tags.
  unfoldable pub serve_bypassed : ℤ → String → Request → ResponseWriter → BaseStorage S → Answer S
  serve_bypassed now detail req rw base =
      let (error, _, rw') = plain req (bypass_status req.context.cache_name detail rw) in
      some (error, rw', invalidated now req rw' base)

  unfoldable pub delete_in_all : String → List (Storer S) → S → S
  delete_in_all key [] storage = storage
  delete_in_all key (storer ∷ storers) storage =
      delete_in_all key storers (storer.delete key storage)

  -- A request with a method that is not cached: a response without an error deletes the index of the
  -- related GET key.
  unfoldable pub serve_unsupported : ℤ → Request → ResponseWriter → BaseStorage S → Answer S
  serve_unsupported now req rw base =
      let (error, code, rw') =
        plain req (bypass_status req.context.cache_name "UNSUPPORTED-METHOD" rw) in
      let base' = invalidated now req rw' base in
      let related = or_else (in_context (record req { method = "GET" })).context.key "" in
      let deleted = record base' {
        storage = delete_in_all (mapping_key_prefix <> related) s.storers base'.storage;
      } in
      some (
        error,
        rw',
        if not (is_some error) && (not (req.method == "GET") && ltb code 400)
            then deleted
            else base',
      )

  -- The end of ServeHTTP: the upstream server is asked.
  unfoldable pub serve_upstream : Weather → Serving → CustomWriter → BaseStorage S → Answer S
  serve_upstream weather r w base =
      let asked : Answer S =
        elim (upstream st dates control p s next r.now r.req r.request_cc r.cached_key r.uri
          weather.flights false w base) [
            | none ↦ none
            | some result ↦ elim result.failure [
              | none ↦ some (none, (send dates serve_content result.writer).rw, result.base)
              | some upstream_50x ↦
                  some (none, (send dates serve_content result.writer).rw, result.base)
              | some e ↦ some (some e, result.writer.rw, result.base)
            ]
          ] in
      let late =
        Http.write "Internal server error" (
          Http.write_header 504
            (bypass_status r.req.context.cache_name "DEADLINE-EXCEEDED" w.rw)) in
      elim weather.timeout [
        | none ↦ asked
        | some deadline_exceeded ↦ some (some (context_failed deadline_exceeded), late, base)
        | some canceled ↦ some (some (context_failed canceled), w.rw, base)
      ]

  -- The choice between the stored responses; directives that did not parse are a panic where they
  -- are read.
  unfoldable pub serve_found :
      Serving → Bool → String → Found S → CustomWriter → BaseStorage S → Option (Outcome S)
  serve_found r is_parsed header_name found w base =
      let admitted_stale : Option (Outcome S) =
        elim (admitted dates control r.now r.req r.request_cc found.stale) [
          | none ↦ some (passed w base)
          | some response ↦
              serve_max_stale st dates control p serve_content s next r found response w base
        ] in
      let other_stale : Option (Outcome S) = elim found.stale [
        | none ↦ some (passed w base)
        | some response ↦
            serve_other_stale st dates control p serve_content s next r found response w base
      ] in
      elim (admitted dates control r.now r.req r.request_cc found.fresh) [
        | some response ↦
            serve_fresh st dates control p serve_content s next r header_name found response w base
        | none ↦
            if not is_parsed
            then none
            else if takes_stale r.request_cc
            then admitted_stale
            else other_stale
      ]

  -- The lookup, and what follows it.
  unfoldable pub serve_lookup : Weather → Serving → Bool → CustomWriter → BaseStorage S → Answer S
  serve_lookup weather r is_parsed w base =
      let key = lookup_key p r.req r.cached_key in
      let header_name = (surrogate_control base.parent (header w)).0 in
      elim (lookup_from r.now key r.req (parse_request dates r.req) [] s.storers base.storage) [
        | none ↦ none
        | some (found, storage) ↦
            elim (serve_found r is_parsed header_name found w (record base { storage = storage })) [
              | none ↦ none
              | some (served error w' base') ↦ some (error, w'.rw, base')
              | some (passed w' base') ↦ serve_upstream weather r w' base'
            ]
      ]

  -- A request that may be served from the storages, in its context.
  unfoldable pub serve_cached :
      Weather → Option RequestDirectives → Request → ResponseWriter → BaseStorage S → Answer S
  serve_cached weather parsed req rw base =
      let request_cc = or_else parsed no_request_directives in
      let range = Headers.get req.header "Range" in
      let req' = record req { header = Headers.del req.header "Range" } in
      let w = record (new_custom_writer req' rw "") {
        headers = Headers.add Headers.empty "Range" range;
      } in
      let r : Serving = record {
        now = weather.now;
        flight = weather.flight;
        req = req';
        request_cc = request_cc;
        cached_key = or_else req.context.key "";
        uri = req.path;
      } in
      if req.context.mode.bypass_request || not request_cc.no_cache
      then serve_lookup weather r (is_some parsed) w base
      else serve_upstream weather r w base

  -- ServeHTTP, for a method that is cached.
  unfoldable pub serve_supported : Weather → Request → ResponseWriter → BaseStorage S → Answer S
  serve_supported weather req rw base =
      let parsed =
        control.parse_request (header_all_comma_sep_values_string req.header "Cache-Control") in
      let req' = in_context req in
      if not req.context.mode.bypass_request && not (is_some parsed)
      then serve_bypassed weather.now "CACHE-CONTROL-EXTRACTION-ERROR" req rw base
      else if req'.context.is_mutation_request
      then serve_bypassed weather.now "IS-MUTATION-REQUEST" req' rw base
      else serve_cached weather parsed req' rw base

  -- ServeHTTP
  unfoldable pub serve_http :
      List (String × Endpoint S)
      → (String → Bool)
      → Weather
      → Request
      → ResponseWriter
      → BaseStorage S
      → Answer S
  serve_http handlers excluded weather rq rw base =
      let req = set_base_context dates weather.now c rq in
      let (error, _, rw') =
        plain req (bypass_status req.context.cache_name "EXCLUDED-REQUEST-URI" rw) in
      let routed : Answer S =
        if is_excluded excluded req
        then some (error, rw', base)
        else if not req.context.supported_method
        then serve_unsupported weather.now req rw base
        else serve_supported weather req rw base in
      elim (handle_internally handlers rq) [
        | none ↦ routed
        | some endpoint ↦ elim (endpoint rq rw base) [
          | none ↦ none
          | some (rw'', base') ↦ some (none, rw'', base')
        ]
      ]
