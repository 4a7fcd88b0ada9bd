-- ===== src/Middleware/Freshness.antt =====
-- (*SouinBaseHandler).Store of pkg/middleware/middleware.go: for how long a response is fresh.
pub mod Lifetime
use souin.Prelude.{
  ℕ, ◌-◌, ◌*◌, String, ◌≡◌, refl, Bool, true, false, ◌||◌, ◌&&◌, not, Option, none, some, List, [],
  ◌∷◌, ◌==◌, or_else, if◌then◌else◌,
}
use souin.Prelude.Int.{ℤ, pos, negsuc, ◌*ℤ◌, ltb_ℤ, leb_ℤ, eqb_ℤ}
use souin.Text.{◌<>◌}
use souin.Clock.{Dates, second, wrap64, sub_time}
use souin.Http.{Request, ModeContext}
use souin.Http.Headers
use souin.Http.Headers.{Header}
use souin.Storage.{one_year_duration}
use souin.Rfc.{RequestDirectives, ResponseDirectives}
use souin.Middleware.{Handler}

-- The zero time.Time.
abbrev pub zero_time : ℤ
zero_time = negsuc (62_135_596_800 * second - 1)

-- The TTL of the URL that matches the request, or else the default one.
unfoldable pub matched_ttl : {S : Type 0} → Handler S → Request → ℤ
matched_ttl s rq =
    let url = s.find_url (rq.host <> rq.path) in
    if not (url == "") && not (eqb_ℤ (s.url_ttl url) (pos 0)) then s.url_ttl url else s.default_ttl

abbrev pub max_expires : ℤ
max_expires = pos 10 *ℤ one_year_duration

-- The freshness that the header Expires gives: `none` if Store gives up.
unfoldable pub expires_freshness : Dates → ℤ → Header → Option ℤ
expires_freshness dates now h = elim (dates.parse_rfc1123 (Headers.get h "Expires")) [
  | none ↦ none
  | some exp ↦
      let duration = sub_time exp now in
      let date = or_else (dates.parse_rfc1123 (Headers.get h "Date")) zero_time in
      if leb_ℤ duration (pos 0) || ltb_ℤ max_expires duration
      then none
      else if ltb_ℤ (pos 0) (sub_time date exp)
      then none
      else some duration
]

abbrev pub from_expires : Option ℤ → Option (ℤ × Bool)
from_expires none = none
from_expires (some d) = some (d, true)

-- The duration, and whether it comes from Expires. `none`: Store returns without storing.
unfoldable pub freshness :
    Dates → ℤ → ModeContext → ℤ → ResponseDirectives → Header → Option (ℤ × Bool)
freshness dates now mode ttl cc h =
    if mode.bypass_response
    then some (ttl, false)
    else if leb_ℤ (pos 0) cc.s_max_age
    then some (wrap64 (cc.s_max_age *ℤ pos second), false)
    else if leb_ℤ (pos 0) cc.max_age
    then some (wrap64 (cc.max_age *ℤ pos second), false)
    else if not (Headers.get h "Expires" == "")
    then from_expires (expires_freshness dates now h)
    else some (ttl, false)

-- Whether the directives allow the response to be stored.
unfoldable pub allows_store : ModeContext → RequestDirectives → ResponseDirectives → Bool → Bool
allows_store mode request_cc response_cc has_freshness =
    (mode.bypass_request || not request_cc.no_store)
    && (mode.bypass_response || (not response_cc.no_store || has_freshness))
