-- ===== src/Middleware/Lookup.antt =====
-- ServeHTTP of pkg/middleware/middleware.go: how a response is looked up, and how a stored response is
-- put into the writer.
use souin.Prelude.{
  String, ◌||◌, not, Option, none, some, List, [], ◌∷◌, ◌++◌, is_some, if◌then◌else◌,
}
use souin.Prelude.Int.{ℤ}
use souin.Clock.{Dates}
use souin.Http.{Request, Response}
use souin.Http.Headers
use souin.Http.Headers.{Header}
use souin.Storage.{Storer, Revalidator}
use souin.Rfc.{RequestDirectives, CacheControl}
use souin.Rfc.CacheStatus.{validate_cache_control, set_cache_status_header, hit_stale_cache}
use souin.Middleware.Writer.{CustomWriter, change_header, write_header, write}

-- What the loop over the storers finds: the responses, the validator after the election, the name of
-- the storer that had one, and the storers before it.
pub record Found (S : Type 0) : Type 0 where
  pub fresh : Option Response
  pub stale : Option Response
  pub validator : Revalidator
  pub storer_name : String
  pub earlier : List (Storer S)

-- The loop over the storers.
unfoldable pub lookup_from :
    {S : Type 0}
    → ℤ
    → String
    → Request
    → Revalidator
    → List (Storer S)
    → List (Storer S)
    → S
    → Option (Found S × S)
lookup_from now key req validator earlier [] s = some (
  record { fresh = none; stale = none; validator = validator; storer_name = ""; earlier = earlier },
  s,
)
lookup_from now key req validator earlier (storer ∷ storers) s =
    elim (storer.get_multi_level now key req validator s) [
      | none ↦ none
      | some (c, s') ↦
          let later = lookup_from now key req c.validator (earlier ++ storer ∷ []) storers s' in
          if is_some c.fresh || is_some c.stale
          then some (
            record {
              fresh = c.fresh;
              stale = c.stale;
              validator = c.validator;
              storer_name = storer.name s';
              earlier = earlier;
            },
            s',
          )
          else later
    ]

-- A stored response, if the mode is not strict or its Cache-Control is valid for the request.
unfoldable pub admitted :
    Dates → CacheControl → ℤ → Request → RequestDirectives → Option Response → Option Response
admitted dates control now req request_cc none = none
admitted dates control now req request_cc (some response) =
    let (valid, h) =
      validate_cache_control dates control now req.context request_cc response.header in
    let checked = record response { header = h } in
    if not req.context.mode.strict then some response else if valid then some checked else none

-- SetCacheStatusHeader, on a response.
unfoldable pub with_cache_status : Dates → ℤ → Request → String → Response → Response
with_cache_status dates now req storer_name response = record response {
  header = set_cache_status_header dates now req.context response.header storer_name;
}

-- HitStaleCache, on a response.
unfoldable pub with_stale : Response → Response
with_stale response = record response { header = hit_stale_cache response.header }

unfoldable pub copy_header : Response → CustomWriter → CustomWriter
copy_header response w = change_header (λ h. Headers.copy h response.header) w

-- A stored response in the writer: code, headers and body.
unfoldable pub put_response : Response → CustomWriter → CustomWriter
put_response response w =
    write response.body (write_header response.status_code (copy_header response w))
