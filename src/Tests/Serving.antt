-- ===== src/Tests/Serving.antt =====
-- Requests that are served.
use souin.Prelude.{
  String, ◌≡◌, ◌≢◌, ◌⊎◌, refl, ap, inl, inr, Bool, true, false, Option, none, some, List, [], ◌∷◌,
  ◌++◌, ◌==◌,
}
use souin.Prelude.Int.{ℤ, pos}
use souin.Text.{◌<>◌}
use souin.Http.{Request, Response, ResponseWriter, background}
use souin.Http.Headers
use souin.Storage.Default
use souin.Storage.Default.{Default}
use souin.Storage.Default.Index.{ElectionLaws, default_storer-IndexLaws}
use souin.Surrogate.Base.{BaseStorage}
use souin.Rfc.Age.Bounds.{IsYoung}
use souin.Context.{Context, set_context}
use souin.Middleware.Writer.{send}
use souin.Middleware.Upstream.{alone, Next}
use souin.Middleware.Lookup.{Found, lookup_from, put_response, with_cache_status}
use souin.Middleware.Fresh.{
  Serving, served, revalidate_and_send, forces_revalidation, serve_young, serve_hit,
}
use souin.Middleware.Serve.{PlainNext, ContextFunctions}
use souin.Middleware.Serve.Laws.{serve_hit-IsYoung, serve_unsupported_unfound}
use souin.Tests.Data.{
  dates, control, request, any_request, library, storer, no_tags, no_directives, validator,
  nothing_stored,
}
use souin.Tests.Responses.{printers, handler, serve, fetched}

-- An upstream server that fails.
abbrev failing : Next
failing rq w = (none, record w { status_code = 500 })

-- The library elects nothing, so it reads no text.
abbrev silent_library : ElectionLaws library
silent_library = record {
  read = λ value req. none;
  elects =
      λ lookup p now later fresh stale key value compressed etag real index varied req v zipped
          updated agrees bare early got.
        refl;
}

abbrev strict_request : Request
strict_request = record request {
  context = record background {
    mode = record { strict = true; bypass_request = false; bypass_response = false };
  };
}

abbrev serving : Serving
serving = record {
  now = pos 0;
  flight = alone;
  req = strict_request;
  request_cc = any_request;
  cached_key = "key";
  uri = "/page";
}

abbrev young_page : Response
young_page = record {
  status_code = 200;
  header = ("Age", "30" ∷ []) ∷ ("Cache-Control", "max-age=60" ∷ []) ∷ [];
  body = "body";
}

-- The page as a storage has found it.
abbrev page_found : Found Default
page_found = record {
  fresh = some young_page;
  stale = none;
  validator = validator;
  storer_name = "DEFAULT";
  earlier = [];
}

abbrev stamped_page : Response
stamped_page = with_cache_status dates (pos 0) strict_request "DEFAULT" young_page

serve_hit-IsYoung_example :
    (((page_found.validator.response_etag == "") ≡ false) × (page_found.validator.matched ≡ true))
    ⊎ (revalidate_and_send storer dates control printers serve handler failing serving
          page_found.validator fetched no_tags
        ≡ some (served none (send dates serve (put_response stamped_page fetched)) no_tags))
    ⊎ IsYoung any_request (record no_directives { max_age = pos 60 }) stamped_page
unfolding serve_hit forces_revalidation serve_young souin.Rfc.header_all_comma_sep_values_string
    Headers.lookup souin.Text.Case.canonical_key souin.Rfc.Age.validate_max_age_cached_response
    souin.Rfc.Age.validate_max_age souin.Rfc.Age.effective_max_age souin.Prelude.Int.◌+ℤ◌
    souin.Rfc.Age.stored_age souin.Text.Numbers.atoi_value Headers.get with_cache_status
    souin.Rfc.CacheStatus.set_cache_status_header Headers.put souin.Text.Numbers.itoa
    souin.Clock.wrap64 souin.Text.Numbers.atoi souin.Clock.sub_time
serve_hit-IsYoung_example =
    serve_hit-IsYoung storer dates control printers serve handler failing serving "Cache-Control"
      page_found young_page (record no_directives { max_age = pos 60 }) fetched
      (send dates serve (put_response stamped_page fetched)) no_tags no_tags none refl refl refl

abbrev accepting : PlainNext
accepting rq rw = (none, 204, rw)

abbrev posting : Request
posting = record request { method = "POST" }

abbrev context : Context
context = record {
  cache_name = "Souin";
  allowed_verbs = "GET" ∷ [];
  custom = false;
  mode = record { strict = true; bypass_request = false; bypass_response = false };
  timeouts = (pos 1, pos 1);
  key = record {
    rule = record {
      disable_body = false;
      disable_host = false;
      disable_method = false;
      disable_query = false;
      sort_query = false;
      disable_vary = false;
      disable_scheme = false;
      displayable = true;
      hash = false;
      headers = [];
      template = "";
    };
    overrides = [];
  };
}

abbrev functions : ContextFunctions
functions = record {
  hash = λ b. b;
  replace_all = λ t r. t;
  matches = λ q u. false;
  encode_query = λ q. q;
}

-- A storage after a SetMultiLevel of the page.
abbrev the_storage : Option (Bool × Default) → Default
the_storage none = nothing_stored
the_storage (some r) = r.1

abbrev page_index : Default
page_index = the_storage (
    Default.set_multi_level library (pos 0) "GET-https-example.com-/page"
      "GET-https-example.com-/page{-VARY-}Accept-Encoding:gzip" "body" [] "" (pos 60)
      "GET-https-example.com-/page{-VARY-}Accept-Encoding:gzip" nothing_stored)

abbrev refused : ResponseWriter
refused = record fetched.rw {
  header = Headers.set fetched.rw.header "Cache-Status" "; fwd=bypass; detail=UNSUPPORTED-METHOD";
}

abbrev related_request : Request
related_request =
    set_context functions.hash functions.replace_all functions.matches functions.encode_query
      context (record posting { method = "GET" })

abbrev without_index : BaseStorage Default
without_index = record no_tags {
  storage = Default.delete "IDX_GET-https-example.com-/page" page_index;
}

serve_unsupported_unfound_example :
    (found : Found Default) × (s : Default) × (lookup_from {S = Default}
        (pos 5)
        "GET-https-example.com-/page"
        related_request
        validator
        []
        handler.storers
        without_index.storage
      ≡ some (found, s))
    × (found.fresh ≡ none)
    × (found.stale ≡ none)
unfolding souin.Middleware.Serve.bypass_status souin.Middleware.Serve.serve_unsupported
    souin.Middleware.Serve.delete_in_all set_context
serve_unsupported_unfound_example =
    serve_unsupported_unfound storer dates control printers serve handler failing accepting context
      functions (default_storer-IndexLaws library silent_library) (pos 0) (pos 5) posting validator
      fetched.rw refused (record no_tags { storage = page_index }) without_index 204 refused none
      refl refl refl refl refl refl
