-- ===== src/Middleware/Revalidate.antt =====
-- Revalidate and backfillStorers of pkg/middleware/middleware.go.
use souin.Prelude.{
  ℕ, String, Bool, false, ◌&&◌, not, Option, none, some, List, [], ◌∷◌, or_else, eqb, if◌then◌else◌,
}
use souin.Prelude.Int.{ℤ, pos, ltb_ℤ}
use souin.Text.{◌<>◌}
use souin.Text.Numbers.{itoa}
use souin.Clock.{Dates, sub_time, sub_duration}
use souin.Http
use souin.Http.{Request, Response, ContextValues}
use souin.Http.Headers
use souin.Http.Headers.{Header}
use souin.Storage.{Storer, Revalidator}
use souin.Surrogate.Base.{BaseStorage, invalidate}
use souin.Rfc.{RequestDirectives, CacheControl}
use souin.Rfc.Vary.{varied_header_all_comma_sep_values}
use souin.Rfc.CacheStatus.{stored_ttl_header, get_cache_key_from_ctx}
use souin.Middleware.{Handler, Printers, dump_response}
use souin.Middleware.Writer.{CustomWriter, header}
use souin.Middleware.Freshness.{zero_time}
use souin.Middleware.Insertion.{StoredKeys, stored_keys}
use souin.Middleware.Store.{set_cache_status, store}
use souin.Middleware.Upstream.{
  ServeError, upstream_50x, answered, Flight, alone, led, joined, joined_error, Next, Flown, replay,
}

-- The status of a revalidation.
unfoldable pub revalidation_status : ContextValues → ℕ → String
revalidation_status ctx code =
    ctx.cache_name
    <> ("; fwd=request; fwd-status="
        <> (itoa (pos code)
            <> ("; key=" <> (get_cache_key_from_ctx ctx <> "; detail=REQUEST-REVALIDATION"))))

-- The answers that Revalidate gives by itself: the code that it sends.
unfoldable pub direct_code : Dates → Revalidator → CustomWriter → Option ℕ
direct_code dates v w =
    let changed : Bool = elim (dates.parse_rfc1123 (Headers.get (header w) "Last-Modified")) [
      | none ↦ false
      | some last_modified ↦
          ltb_ℤ (pos 0) (sub_time (or_else v.if_modified_since zero_time) last_modified)
    ] in
    if v.if_unmodified_since_present && not (eqb w.status_code 304)
    then some 412
    else if v.if_modified_since_present && changed
    then some 304
    else none

module _ {S : Type 0} (st : Storer S) (dates : Dates) (control : CacheControl) (p : Printers)
    (s : Handler S) (next : Next) where
  -- The end of the function that Revalidate runs.
  unfoldable pub revalidated :
      Request → ℕ → Option ServeError → CustomWriter → BaseStorage S → Flown S
  revalidated rq code error w base =
      let w' = set_cache_status (revalidation_status rq.context code) w in
      record {
        value = some (record {
          body = w'.buf;
          headers = header w';
          request_headers = Headers.empty;
          code = code;
          disable_coalescing = false;
        });
        error = error;
        writer = record w' { buf = "" };
        base = base;
      }

  -- What it does with a response that the next handler gave without an error.
  unfoldable pub refresh :
      ℤ
      → Revalidator
      → Request
      → RequestDirectives
      → String
      → String
      → CustomWriter
      → BaseStorage S
      → Option (Flown S)
  refresh now v rq request_cc cached_key uri w base =
      let stored : Option (Flown S) =
        elim (store st dates control p s now rq request_cc cached_key uri w base) [
          | none ↦ none
          | some (failed, w', base') ↦
              some
                (revalidated rq w.status_code (if failed then some upstream_50x else none) w' base')
        ] in
      elim (direct_code dates v w) [
        | some code ↦ some (record {
          value = none;
          error = some answered;
          writer = record w { buf = ""; rw = Http.write_header code w.rw };
          base = base;
        })
        | none ↦
            if eqb w.status_code 304
            then some (revalidated rq w.status_code none w base)
            else stored
      ]

  -- The function that Revalidate runs.
  unfoldable pub fly_revalidate :
      ℤ
      → Revalidator
      → Request
      → RequestDirectives
      → String
      → String
      → CustomWriter
      → BaseStorage S
      → Option (Flown S)
  fly_revalidate now v rq request_cc cached_key uri w base =
      let (failed, w') = next rq w in
      let base' =
        if s.surrogate_disabled then base else invalidate st now rq.method (header w') base in
      elim failed [
        | none ↦ refresh now v rq request_cc cached_key uri w' base'
        | some e ↦ some (revalidated rq w'.status_code (some e) w' base')
      ]

  -- Revalidate: the error, the writer and the state.
  unfoldable pub revalidate :
      ℤ
      → Flight
      → Revalidator
      → Request
      → RequestDirectives
      → String
      → String
      → CustomWriter
      → BaseStorage S
      → Option (Option ServeError × CustomWriter × BaseStorage S)
  revalidate now flight v rq request_cc cached_key uri w base =
      let own = fly_revalidate now v rq request_cc cached_key uri w base in
      let result : Option (Flown S) = elim (if s.coalescing_disabled then alone else flight) [
        | alone ↦ own
        | led ↦ own
        | joined_error e ↦ some (record { value = none; error = some e; writer = w; base = base })
        | joined shared ↦
            some (record { value = some shared; error = none; writer = w; base = base })
      ] in
      elim result [
        | none ↦ none
        | some f ↦
            let written : CustomWriter = elim f.value [
              | none ↦ f.writer
              | some value ↦ replay value f.writer
            ] in
            some (f.error, written, f.base)
      ]

-- The insertions of backfillStorers, whose errors are only logged.
unfoldable pub backfill_each :
    {S : Type 0} → List (Storer S) → ℤ → StoredKeys → String → String → ℤ → S → Option S
backfill_each [] now keys res etag ma s = some s
backfill_each (storer ∷ storers) now keys res etag ma s =
    elim (storer.set_multi_level now keys.base_key keys.varied_key res keys.varied_headers etag ma
      keys.varied_key s) [
        | none ↦ none
        | some (_, s') ↦ backfill_each storers now keys res etag ma s'
      ]

-- backfillStorers: `earlier` are the storers before the one that had the response.
unfoldable pub backfill_storers :
    {S : Type 0}
    → Dates
    → Printers
    → ℤ
    → List (Storer S)
    → String
    → Request
    → Response
    → S
    → Option S
backfill_storers dates p now [] cached_key rq response s = some s
backfill_storers dates p now (storer ∷ storers) cached_key rq response s =
    elim (dates.parse_duration (Headers.get response.header stored_ttl_header)) [
      | none ↦ some s
      | some stored_duration ↦ elim (dates.parse_time (Headers.get response.header "Date")) [
        | none ↦ some s
        | some date ↦
            let (varied, _) = varied_header_all_comma_sep_values response.header in
            backfill_each (storer ∷ storers) now (stored_keys p rq cached_key varied)
              (dump_response p response.status_code response.header response.body)
              (Headers.get response.header "Etag")
              (sub_duration stored_duration (sub_time now date)) s
      ]
    ]
