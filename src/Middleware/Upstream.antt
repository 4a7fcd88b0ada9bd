-- ===== src/Middleware/Upstream.antt =====
-- Upstream and Revalidate of pkg/middleware/middleware.go. The next handler is an argument that
-- writes through the CustomWriter. What singleflight gives a call is one of three outcomes, and the
-- outcomes of the calls that one request makes are a list. Panics of the next handler are not
-- modelled; `none` is a panic of Store.
pub mod Laws
pub mod Values
pub mod Shared
use souin.Prelude.{
  ℕ, String, Bool, true, false, ◌||◌, ◌&&◌, not, Option, none, some, List, [], ◌∷◌, ◌==◌, ◌⊎◌, inl,
  inr, any, eqb, if◌then◌else◌,
}
use souin.Prelude.Int.{ℤ, pos, ◌-ℤ◌, ltb_ℤ}
use souin.Text.{◌<>◌, contains}
use souin.Text.Numbers.{itoa}
use souin.Clock.{Dates, sub_time}
use souin.Http
use souin.Http.{Request, ContextValues, ContextError}
use souin.Http.Headers
use souin.Http.Headers.{Header}
use souin.Storage.{Storer, Revalidator}
use souin.Surrogate.{surrogate_control}
use souin.Surrogate.Base.{BaseStorage, invalidate}
use souin.Rfc.{RequestDirectives, CacheControl}
use souin.Rfc.Vary.{varied_header_all_comma_sep_values}
use souin.Rfc.CacheStatus.{get_cache_key_from_ctx}
use souin.Middleware.{Handler, Printers, caches_code, is_upstream_50x}
use souin.Middleware.Writer.{CustomWriter, header, change_header, write_header, write}
use souin.Middleware.Store.{set_cache_status, miss, with_default_control, store}

-- The errors that are returned: Upstream50xError, the error of the next handler, the empty error of
-- Revalidate, and that of a context.
pub data ServeError : Type 0 where
  upstream_50x : ServeError
  next_error : String → ServeError
  answered : ServeError
  context_failed : ContextError → ServeError

pub record SingleflightValue : Type 0 where
  pub body : String
  pub headers : Header
  pub request_headers : Header
  pub code : ℕ
  pub disable_coalescing : Bool

-- The call ran by itself, or ran while others waited for it, or got the result of another call.
pub data Flight : Type 0 where
  alone : Flight
  led : Flight
  joined_error : ServeError → Flight
  joined : SingleflightValue → Flight

abbrev pub is_shared : Flight → Bool
is_shared alone = false
is_shared led = true
is_shared (joined_error e) = true
is_shared (joined v) = true

abbrev pub Next : Type 0
Next = Request → CustomWriter → Option ServeError × CustomWriter

-- What the function that singleflight runs returns: a value or an error, or for Revalidate and a
-- failing Store both, and the writer and the state that it leaves.
pub record Flown (S : Type 0) : Type 0 where
  pub value : Option SingleflightValue
  pub error : Option ServeError
  pub writer : CustomWriter
  pub base : BaseStorage S

-- The copy of a response into the writer of a request.
unfoldable pub replay : SingleflightValue → CustomWriter → CustomWriter
replay v w =
    let written = write v.body (record w { buf = "" }) in
    write_header v.code (change_header (λ h. Headers.copy h v.headers) written)

-- A varied header of which the request has another value than the one that was answered.
unfoldable pub varies : Request → SingleflightValue → Bool
varies rq v =
    let (varied, is_vary_star) = varied_header_all_comma_sep_values v.headers in
    not (Headers.get v.headers "Vary" == "")
    && (not is_vary_star
        && any (λ vh. not (Headers.get rq.header vh == Headers.get v.request_headers vh)) varied)

-- What Upstream does with a value: `some` is a new call of Upstream, with its flag.
unfoldable pub again : Request → Bool → SingleflightValue → Option Bool
again rq shared v =
    if shared && v.disable_coalescing then some true else if varies rq v then some false else none

abbrev error_of : Bool → Option ServeError
error_of true = some upstream_50x
error_of false = none

module _ {S : Type 0} (st : Storer S) (dates : Dates) (control : CacheControl) (p : Printers)
    (s : Handler S) (next : Next) where
  abbrev invalidated : ℤ → Request → CustomWriter → BaseStorage S → BaseStorage S
  invalidated now rq w base =
      if s.surrogate_disabled then base else invalidate st now rq.method (header w) base

  abbrev snapshot : Request → ℕ → Bool → CustomWriter → SingleflightValue
  snapshot rq code disable w = record {
    body = w.buf;
    headers = header w;
    request_headers = rq.header;
    code = code;
    disable_coalescing = disable;
  }

  -- The end of the function that Upstream runs: the response is stored and copied.
  unfoldable pub fly_store :
      ℤ
      → Request
      → RequestDirectives
      → String
      → String
      → CustomWriter
      → BaseStorage S
      → Option (Flown S)
  fly_store now rq request_cc cached_key uri w base =
      let cache_control = (surrogate_control base.parent (header w)).1 in
      elim (store st dates control p s now rq request_cc cached_key uri
        (with_default_control s base w).1 base) [
          | none ↦ none
          | some (failed, w', base') ↦
              let disable =
                contains cache_control "private"
                || not (Headers.get (header w') "Set-Cookie" == "") in
              some (record {
                value = some (snapshot rq w.status_code disable w');
                error = error_of failed;
                writer = record w' { buf = "" };
                base = base';
              })
        ]

  -- The function that Upstream runs.
  unfoldable pub fly :
      ℤ
      → Request
      → RequestDirectives
      → String
      → String
      → CustomWriter
      → BaseStorage S
      → Option (Flown S)
  fly now rq request_cc cached_key uri w base =
      let (failed, w') = next rq w in
      let base' = invalidated now rq w' base in
      let refused = set_cache_status (miss rq.context "UNCACHEABLE-STATUS-CODE") w' in
      let cacheable = caches_code s w'.status_code in
      let answered_ : Option (Flown S) =
        if not cacheable && is_upstream_50x w'.status_code
        then some
            (record { value = none; error = some upstream_50x; writer = refused; base = base' })
        else fly_store now rq request_cc cached_key uri (if cacheable then w' else refused) base' in
      elim failed [
        | none ↦ answered_
        | some e ↦ some (record {
          value = none;
          error = some e;
          writer = set_cache_status (miss rq.context "SERVE-HTTP-ERROR") w';
          base = base;
        })
      ]

  -- What Do returns for an outcome.
  unfoldable pub flown :
      Flight
      → ℤ
      → Request
      → RequestDirectives
      → String
      → String
      → CustomWriter
      → BaseStorage S
      → Option (Flown S)
  flown alone now rq request_cc cached_key uri w base = fly now rq request_cc cached_key uri w base
  flown led now rq request_cc cached_key uri w base = fly now rq request_cc cached_key uri w base
  flown (joined_error e) now rq request_cc cached_key uri w base =
      some (record { value = none; error = some e; writer = w; base = base })
  flown (joined v) now rq request_cc cached_key uri w base =
      some (record { value = some v; error = none; writer = w; base = base })

  -- A call with coalescing switched off has a key of its own, so it runs alone.
  abbrev pub outcome : Bool → Flight → Flight
  outcome disable flight = if s.coalescing_disabled || disable then alone else flight

  -- What Upstream returns.
  pub record Result : Type 0 where
    pub failure : Option ServeError
    pub writer : CustomWriter
    pub base : BaseStorage S

  -- Upstream, after Do: `inl` is its result, `inr` the flag, the writer and the state of a new call.
  unfoldable pub settle : Request → Bool → Flown S → Result ⊎ (Bool × CustomWriter × BaseStorage S)
  settle rq shared f =
      let on_value : Result ⊎ (Bool × CustomWriter × BaseStorage S) = elim f.value [
        | none ↦ inl (record { failure = none; writer = f.writer; base = f.base })
        | some v ↦ elim (again rq shared v) [
          | some disable ↦ inr (disable, f.writer, f.base)
          | none ↦ inl (record { failure = none; writer = replay v f.writer; base = f.base })
        ]
      ] in
      elim f.error [
        | some e ↦ inl (record { failure = some e; writer = f.writer; base = f.base })
        | none ↦ on_value
      ]

  -- Upstream. Each call takes an outcome; after the last one it runs alone. A call that runs alone
  -- and would call again gives `none`, as a panic does.
  unfoldable pub upstream :
      ℤ
      → Request
      → RequestDirectives
      → String
      → String
      → List Flight
      → Bool
      → CustomWriter
      → BaseStorage S
      → Option Result
  upstream now rq request_cc cached_key uri [] disable w base =
      elim (flown alone now rq request_cc cached_key uri w base) [
        | none ↦ none
        | some f ↦ elim (settle rq false f) [ inl r ↦ some r | inr _ ↦ none ]
      ]
  upstream now rq request_cc cached_key uri (flight ∷ flights) disable w base =
      elim (flown (outcome disable flight) now rq request_cc cached_key uri w base) [
        | none ↦ none
        | some f ↦ elim (settle rq (is_shared (outcome disable flight)) f) [
          | inl r ↦ some r
          | inr (disable', w', base') ↦
              upstream now rq request_cc cached_key uri flights disable' w' base'
        ]
      ]
