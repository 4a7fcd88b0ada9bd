-- ===== src/Middleware/Store/Laws.antt =====
-- Which responses Store keeps.
use souin.Prelude.{String, ◌≡◌, Bool, true, false, some, is_some}
use souin.Prelude.Int.{ℤ}
use souin.Clock.{Dates}
use souin.Http.{Request}
use souin.Http.Headers
use souin.Rfc.{
  RequestDirectives, ResponseDirectives, CacheControl, header_all_comma_sep_values_string,
}
use souin.Middleware.{Handler, caches_code}
use souin.Middleware.Writer.{CustomWriter, header}
use souin.Middleware.Freshness.{matched_ttl, freshness, allows_store}
use souin.Middleware.Store.Varied.{IsStarred}
use souin.Middleware.Store.{is_restricted, is_too_large, has_content}

-- All that Store asks of a response that it keeps.
pub record Storable {S : Type 0} (dates : Dates) (control : CacheControl) (s : Handler S) (now : ℤ)
    (rq : Request) (request_cc : RequestDirectives) (w : CustomWriter) (name : String)
    : Type 0 where
  pub cc : ResponseDirectives
  pub lifetime : ℤ
  pub from_expires : Bool
  pub code : caches_code s w.status_code ≡ true
  pub parsed : control.parse_response (header_all_comma_sep_values_string (header w) name) ≡ some cc
  pub unrestricted : is_restricted rq cc (header w) ≡ false
  pub fresh :
      freshness dates now rq.context.mode (matched_ttl s rq) cc (header w)
      ≡ some (lifetime, from_expires)
  pub allowed : allows_store rq.context.mode request_cc cc from_expires ≡ true
  pub small : is_too_large s.max_body_bytes w.buf ≡ false
  pub content : has_content s rq w.status_code w.buf ≡ true
  pub unstarred : ¬ IsStarred cc.no_cache (header w)
  pub live : is_some rq.context.error ≡ false
