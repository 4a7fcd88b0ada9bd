-- ===== src/Tests/Freshness.antt =====
-- Ages, lifetimes and the lock of the eviction.
use souin.Prelude.{
  String, ◌≡◌, ◌≢◌, ◌⊎◌, refl, inl, inr, ◌↔◌, true, false, Option, some, [], ◌∷◌, or_else, arith,
}
use souin.Prelude.Int.{ℤ, pos, negsuc, ◌+ℤ◌, ◌*ℤ◌, ◌≤ℤ◌, ◌<ℤ◌}
use souin.Text.{◌<>◌, split}
use souin.Entries.{load}
use souin.Clock.{second, wrap64, sub_time}
use souin.Http.{Response, ModeContext}
use souin.Http.Headers
use souin.Http.Headers.{Header}
use souin.Storage.Default
use souin.Storage.Default.{Default, item}
use souin.Storage.Default.Laws.{default_storer-laws}
use souin.Rfc.{ResponseDirectives}
use souin.Rfc.Age.{validate_max_age_cached_response}
use souin.Rfc.Age.Bounds.{Within, validate_max_age_cached_response_iff}
use souin.Middleware.Freshness.{zero_time, max_expires, expires_freshness, from_expires, freshness}
use souin.Middleware.Freshness.Lifetime.{expires_freshness_iff, freshness_order}
use souin.Middleware.Lock.{lock_value, lock_holder, claim, verify, try_acquire_eviction_lock}
use souin.Middleware.Lock.Exclusion.{acquired-excludes, free-acquired}
use souin.Tests.Data.{dates, control, no_directives, any_request, library, storer, nothing_stored}

abbrev aged : Response
aged = record {
  status_code = 200;
  header = ("Age", "30" ∷ []) ∷ ("Cache-Control", "max-age=60" ∷ []) ∷ [];
  body = "";
}

abbrev minute : ResponseDirectives
minute = record no_directives { max_age = pos 60 }

abbrev mode : ModeContext
mode = record { strict = true; bypass_request = false; bypass_response = false }

abbrev expiring : Header
expiring = ("Expires", "Thu, 01 Jan 1970 01:00:00 GMT" ∷ []) ∷ []

validate_max_age_cached_response_iff_example :
    (validate_max_age_cached_response control any_request aged ≡ some true) ↔ (
      ((pos 0 ≤ℤ negsuc 0) × Within aged (negsuc 0) (pos 0))
      ⊎ ((negsuc 0 <ℤ pos 0) × (pos 0 ≤ℤ pos 60) × Within aged (pos 60) (pos 0))
      ⊎ ((negsuc 0 <ℤ pos 0) × (pos 60 <ℤ pos 0) × Within aged (negsuc 0) (pos 0)))
unfolding souin.Rfc.header_all_comma_sep_values_string Headers.lookup souin.Text.Case.canonical_key
validate_max_age_cached_response_iff_example =
    validate_max_age_cached_response_iff control any_request aged minute refl

expires_freshness_iff_example :
    (expires_freshness dates (pos 0) expiring ≡ some (pos 3_600_000_000_000)) ↔ (
      (pos 3_600_000_000_000 ≡ sub_time (pos 3_600_000_000_000) (pos 0))
      × (pos 0 <ℤ pos 3_600_000_000_000)
      × (pos 3_600_000_000_000 ≤ℤ max_expires)
      × (sub_time
            (or_else (dates.parse_rfc1123 (Headers.get expiring "Date")) zero_time)
            (pos 3_600_000_000_000)
          ≤ℤ pos 0))
unfolding Headers.get Headers.lookup souin.Text.Case.canonical_key
expires_freshness_iff_example =
    expires_freshness_iff dates (pos 0) expiring (pos 3_600_000_000_000) (pos 3_600_000_000_000)
      refl

freshness_order_example :
    ((pos 0 ≤ℤ negsuc 0)
      × (freshness dates (pos 0) mode (pos 9) minute expiring
          ≡ some (wrap64 (negsuc 0 *ℤ pos second), false)))
    ⊎ ((negsuc 0 <ℤ pos 0)
        × (pos 0 ≤ℤ pos 60)
        × (freshness dates (pos 0) mode (pos 9) minute expiring
            ≡ some (wrap64 (pos 60 *ℤ pos second), false)))
    ⊎ ((negsuc 0 <ℤ pos 0)
        × (pos 60 <ℤ pos 0)
        × (Headers.get expiring "Expires" ≢ "")
        × (freshness dates (pos 0) mode (pos 9) minute expiring
            ≡ from_expires (expires_freshness dates (pos 0) expiring)))
    ⊎ ((negsuc 0 <ℤ pos 0)
        × (pos 60 <ℤ pos 0)
        × (Headers.get expiring "Expires" ≡ "")
        × (freshness dates (pos 0) mode (pos 9) minute expiring ≡ some (pos 9, false)))
freshness_order_example = freshness_order dates (pos 0) (pos 9) mode minute expiring refl

abbrev no_date : String → Option ℤ
no_date t = some (pos 100)

abbrev any_date : ℤ → String
any_date t = "date"

abbrev locked : Default
locked = record { m = ("eviction-lock", item (pos 200) "me|date") ∷ []; stale = pos 0 }

acquired-excludes_example :
    (claim storer no_date any_date
      (pos 50)
      "other"
      (verify storer no_date any_date
        (pos 10)
        (inr (lock_value storer no_date any_date (pos 0) "me"))
        locked).1).0
    ≡ inl false
unfolding split lock_value Default.get verify
acquired-excludes_example =
    acquired-excludes storer no_date any_date (default_storer-laws library) (pos 0) (pos 10)
      (pos 50) (pos 100) "me" "other" locked refl refl refl (ground arith) refl refl

free-acquired_example :
    (try_acquire_eviction_lock storer no_date any_date
      (pos 0)
      (pos 10)
      (λ s. s)
      "me"
      nothing_stored).0
    ≡ true
unfolding lock_holder Default.get Default.set load split ◌+ℤ◌
free-acquired_example =
    free-acquired storer no_date any_date (default_storer-laws library) (pos 0) (pos 10) "me"
      nothing_stored refl refl refl
