-- ===== src/Rfc/CacheStatus/Hits.antt =====
-- What the header Cache-Status of a hit says.
use souin.Prelude.{String, ◌≡◌, refl, ◌==◌, or_else, if◌then◌else◌, Bool-cases, eq_iff, inl, inr}
use souin.Prelude.Int.{ℤ, pos, ◌+ℤ◌, ◌-ℤ◌, ltb_ℤ}
use souin.Text.{◌<>◌}
use souin.Text.Case.{canonical_key}
use souin.Text.Numbers.{itoa, atoi}
use souin.Clock.{Dates, wrap64, sub_time, seconds, ceil_seconds}
use souin.Http.Headers
use souin.Http.Headers.{Header, get-set, get-del}
use souin.Rfc.CacheStatus.{stored_ttl_header, set_age}

-- How long ago the response was made, in seconds that are rounded up.
abbrev pub apparent_seconds : ℤ → ℤ → ℤ
apparent_seconds utc1 utc2 =
    let apparent = sub_time utc1 utc2 in
    ceil_seconds (if ltb_ℤ apparent (pos 0) then pos 0 else apparent)

-- A hit adds the apparent age of the response to its Age, in int64, and Cache-Status tells what is left of the
-- stored duration after that age, the key and the storage; the header with the duration is removed.
pub set_age_lem :
    (dates : Dates) (utc1 utc2 : ℤ) (h : Header) (ttl : ℤ) (cache_name key storer_name : String)
    → (let h' = set_age dates utc1 utc2 h ttl cache_name key storer_name in
        let stored = Headers.get h stored_ttl_header in
        let ttl' = if stored == "" then ttl else or_else (dates.parse_duration stored) (pos 0) in
        let age = apparent_seconds utc1 utc2 in
        (Headers.get h' "Age" ≡ itoa (wrap64 (or_else (atoi (Headers.get h "Age")) (pos 0) +ℤ age)))
        × (Headers.get h' "Cache-Status"
            ≡ cache_name
              <> ("; hit; ttl="
                  <> (itoa (seconds ttl' -ℤ age)
                      <> ("; key=" <> (key <> ("; detail=" <> storer_name))))))
        × (Headers.get h' stored_ttl_header ≡ ""))
unfolding set_age canonical_key
set_age_lem dates utc1 utc2 h ttl cache_name key storer_name =
    elim (Bool-cases (Headers.get h stored_ttl_header == "")) [
      | inl e ↦ (
        rw (get-set, get-set, e) refl,
        rw (get-set, e) refl,
        rw (get-set, get-set, e) ((eq_iff (Headers.get h stored_ttl_header) "").0 e),
      )
      | inr e ↦ (
        rw (get-set, get-set, e, get-del) refl,
        rw (get-set, e) refl,
        rw (get-set, get-set, e, get-del) refl,
      )
    ]
