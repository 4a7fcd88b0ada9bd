-- ===== src/Tests/Sharing.antt =====
-- Requests that share the response of a concurrent one.
use souin.Prelude.{◌≡◌, ◌≢◌, ◌⊎◌, refl, Bool, true, false, Option, none, some, List, [], ◌∷◌}
use souin.Prelude.Int.{pos}
use souin.Http.Headers
use souin.Storage.Default.{Default}
use souin.Surrogate.Base.{BaseStorage}
use souin.Middleware.{
  caches_code, is_cacheable_code, is_code, has_allowed_additional_status_codes_to_cache,
  is_upstream_50x,
}
use souin.Middleware.Writer.{CustomWriter}
use souin.Middleware.Store.{store, with_default_control}
use souin.Middleware.Upstream.{
  SingleflightValue, Flight, led, joined, Next, Flown, Result, fly_store, fly, flown, upstream,
}
use souin.Middleware.Upstream.Laws.{upstream_private_ends}
use souin.Middleware.Upstream.Shared.{IsPrivate, IsOpen, Differ, Alike, HasValue, upstream_joined}
use souin.Tests.Data.{dates, control, request, any_request, storer, no_tags}
use souin.Tests.Responses.{printers, handler, fetched}

-- An upstream server that fails.
abbrev failing : Next
failing rq w = (none, record w { status_code = 500 })

abbrev private_page : SingleflightValue
private_page = record {
  body = "body";
  headers = [];
  request_headers = [];
  code = 200;
  disable_coalescing = true;
}

failing_flies :
    (w : CustomWriter) (base : BaseStorage Default)
    → fly storer dates control printers handler failing
        (pos 0)
        request
        any_request
        "key"
        "/page"
        w
        base
      ≢ none
unfolding fly caches_code is_cacheable_code is_code has_allowed_additional_status_codes_to_cache
    is_upstream_50x
failing_flies w base = cc

abbrev private_flight : Flown Default
private_flight = record {
  value = some private_page;
  error = none;
  writer = fetched;
  base = no_tags;
}

upstream_private_ends_example :
    (r : Result storer dates control printers handler failing) × (upstream storer dates control
        printers handler failing
        (pos 0)
        request
        any_request
        "key"
        "/page"
        (joined private_page ∷ [])
        false
        fetched
        no_tags
      ≡ some r)
    × (upstream storer dates control printers handler failing
          (pos 0)
          request
          any_request
          "key"
          "/page"
          (joined private_page ∷ joined private_page ∷ led ∷ [])
          false
          fetched
          no_tags
        ≡ some r)
unfolding flown
upstream_private_ends_example =
    upstream_private_ends storer dates control printers handler failing (pos 0) request any_request
      "key" "/page" failing_flies (joined private_page) [] (joined private_page ∷ led ∷ []) fetched
      no_tags private_flight private_page refl refl refl refl refl

-- A response that is not stored, and what its call gives to others.
abbrev teapot : CustomWriter
teapot = record fetched {
  status_code = 418;
  rw = record fetched.rw {
    header = ("Cache-Control", "max-age=60" ∷ []) ∷ ("Vary", "Accept-Encoding" ∷ []) ∷ [];
  };
}

abbrev the_flown : Option (Flown Default) → Flown Default
the_flown none = private_flight
the_flown (some f) = f

abbrev the_value : Option SingleflightValue → SingleflightValue
the_value none = private_page
the_value (some v) = v

abbrev flown_teapot : Flown Default
flown_teapot = the_flown (
    fly_store storer dates control printers handler failing (pos 0) request any_request "key"
      "/page" teapot no_tags)

abbrev teapot_value : SingleflightValue
teapot_value = the_value flown_teapot.value

abbrev asked : List Flight → Bool → Option (Result storer dates control printers handler failing)
asked flights disable =
    upstream storer dates control printers handler failing (pos 0) request any_request "key" "/page"
      flights disable fetched no_tags

upstream_joined_example :
    (IsPrivate storer dates control printers handler failing no_tags teapot teapot_value
      × (asked (joined teapot_value ∷ []) false ≡ asked [] true))
    ⊎ (IsOpen storer dates control printers handler failing no_tags teapot teapot_value
        × Differ storer dates control printers handler failing request request teapot_value
        × (asked (joined teapot_value ∷ []) false ≡ asked [] false))
    ⊎ (IsOpen storer dates control printers handler failing no_tags teapot teapot_value
        × Alike storer dates control printers handler failing request request teapot_value
        × (r : Result storer dates control printers handler failing) × (asked
              (joined teapot_value ∷ [])
              false
            ≡ some r)
        × HasValue storer dates control printers handler failing teapot_value fetched no_tags r)
unfolding fly_store store caches_code is_cacheable_code is_code
    has_allowed_additional_status_codes_to_cache is_upstream_50x with_default_control
    souin.Surrogate.surrogate_control Headers.lookup souin.Middleware.Writer.header
    souin.Text.Case.canonical_key
upstream_joined_example =
    upstream_joined storer dates control printers handler failing (pos 0) (pos 0) request request
      any_request any_request "key" "/page" "key" "/page" fetched teapot no_tags no_tags
      flown_teapot teapot_value [] refl refl refl
