-- ===== src/Rfc/Age/Bounds.antt =====
-- Which ages the checks of age.go accept.
use souin.Prelude.{◌≡◌, ◌↔◌, ◌⊎◌, true, some, arith}
use souin.Prelude.Int.{ℤ, pos, ◌+ℤ◌, ◌≤ℤ◌, ◌<ℤ◌}
use souin.Http.{Response}
use souin.Rfc.{RequestDirectives, ResponseDirectives, CacheControl, response_cache_control}
use souin.Rfc.Age.{
  stored_age, validate_max_age, effective_max_age, validate_max_age_cached_response,
  within_stale_if_error, validate_max_age_cached_stale_response,
}

-- The age is within a limit, where a negative limit is none.
abbrev pub Within : Response → ℤ → ℤ → Type 0
Within res max_age add_time = (max_age <ℤ pos 0) ⊎ (stored_age res ≤ℤ max_age +ℤ add_time)

pub validate_max_age_iff :
    (res : Response) (max_age add_time : ℤ)
    → (validate_max_age res max_age add_time ≡ true) ↔ Within res max_age add_time
unfolding validate_max_age
validate_max_age_iff res max_age add_time = ground arith

-- The age is within the limit that the directives give: s-maxage, or else max-age, or else the
-- request's max-age.
abbrev pub IsYoung : RequestDirectives → ResponseDirectives → Response → Type 0
IsYoung co r res =
    ((pos 0 ≤ℤ r.s_max_age) × Within res r.s_max_age (pos 0))
    ⊎ ((r.s_max_age <ℤ pos 0) × (pos 0 ≤ℤ r.max_age) × Within res r.max_age (pos 0))
    ⊎ ((r.s_max_age <ℤ pos 0) × (r.max_age <ℤ pos 0) × Within res co.max_age (pos 0))

-- For a response whose Cache-Control parses, ValidateMaxAgeCachedResponse accepts exactly the ages
-- within the limit, which is s-maxage if there is one, else max-age, else the request's max-age.
pub validate_max_age_cached_response_iff :
    (control : CacheControl) (co : RequestDirectives) (res : Response) (r : ResponseDirectives)
    → response_cache_control control res.header ≡ some r
    → (validate_max_age_cached_response control co res ≡ some true) ↔ (
        ((pos 0 ≤ℤ r.s_max_age) × Within res r.s_max_age (pos 0))
        ⊎ ((r.s_max_age <ℤ pos 0) × (pos 0 ≤ℤ r.max_age) × Within res r.max_age (pos 0))
        ⊎ ((r.s_max_age <ℤ pos 0) × (r.max_age <ℤ pos 0) × Within res co.max_age (pos 0)))
unfolding validate_max_age_cached_response effective_max_age
validate_max_age_cached_response_iff control co res r e =
    rw (e, validate_max_age_cached_response)
      (ground (
        arith,
        validate_max_age_iff res r.s_max_age (pos 0),
        validate_max_age_iff res r.max_age (pos 0),
        validate_max_age_iff res co.max_age (pos 0),
      ))

-- ValidateMaxAgeCachedStaleResponse accepts a stale response exactly if the request takes any
-- stale one, if the age is within a stale-if-error of the response or of the request, or if it is
-- within the request's max-stale; each limit grows by the time that is added.
pub validate_max_age_cached_stale_response_iff :
    (co : RequestDirectives) (r : ResponseDirectives) (res : Response) (add_time : ℤ)
    → (validate_max_age_cached_stale_response co (some r) res add_time ≡ true) ↔ (
        (co.max_stale_set ≡ true)
        ⊎ ((pos 0 ≤ℤ r.stale_if_error) × (stored_age res ≤ℤ r.stale_if_error +ℤ add_time))
        ⊎ ((pos 0 <ℤ co.stale_if_error) × (stored_age res ≤ℤ co.stale_if_error +ℤ add_time))
        ⊎ ((pos 0 ≤ℤ co.max_stale) × (stored_age res ≤ℤ co.max_stale +ℤ add_time)))
unfolding validate_max_age_cached_stale_response within_stale_if_error
validate_max_age_cached_stale_response_iff co r res add_time = ground (
  arith,
  validate_max_age_iff res r.stale_if_error add_time,
  validate_max_age_iff res co.stale_if_error add_time,
  validate_max_age_iff res co.max_stale add_time,
)
