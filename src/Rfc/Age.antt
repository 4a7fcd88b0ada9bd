-- ===== src/Rfc/Age.antt =====
-- pkg/rfc/age.go: whether a stored response is young enough.
pub mod Bounds
use souin.Prelude.{String, Bool, true, false, ◌||◌, ◌&&◌, not, Option, none, some, if◌then◌else◌}
use souin.Prelude.Int.{ℤ, pos, negsuc, ◌+ℤ◌, ltb_ℤ, leb_ℤ}
use souin.Text.Numbers.{atoi_value}
use souin.Http.{Response}
use souin.Http.Headers
use souin.Rfc.{RequestDirectives, ResponseDirectives, CacheControl, response_cache_control}

-- The number of the header Age: 0 if it is none, and an end of int64 if it is out of range.
unfoldable pub stored_age : Response → ℤ
unfolding atoi_value Headers.get
stored_age res = atoi_value (Headers.get res.header "Age")

-- validateMaxAgeCachedResponse: false is its nil. The limit is an int32, and what is added to it the
-- seconds of a duration, so that their sum stays in int64.
unfoldable pub validate_max_age : Response → ℤ → ℤ → Bool
validate_max_age res max_age add_time =
    not (leb_ℤ (pos 0) max_age && ltb_ℤ (max_age +ℤ add_time) (stored_age res))

-- The max-age that ValidateMaxAgeCachedResponse takes.
unfoldable pub effective_max_age : RequestDirectives → ResponseDirectives → ℤ
effective_max_age co response_cc =
    let ma = if ltb_ℤ (negsuc 0) response_cc.max_age then response_cc.max_age else co.max_age in
    if ltb_ℤ (negsuc 0) response_cc.s_max_age then response_cc.s_max_age else ma

-- ValidateMaxAgeCachedResponse: `none` is the panic on a Cache-Control that does not parse.
unfoldable pub validate_max_age_cached_response :
    CacheControl → RequestDirectives → Response → Option Bool
validate_max_age_cached_response control co res = elim (response_cache_control control res.header) [
  | none ↦ none
  | some response_cc ↦ some (validate_max_age res (effective_max_age co response_cc) (pos 0))
]

-- The branch of ValidateMaxAgeCachedStaleResponse on stale-if-error.
unfoldable pub within_stale_if_error : RequestDirectives → ResponseDirectives → Response → ℤ → Bool
within_stale_if_error co res_co res add_time =
    (ltb_ℤ (negsuc 0) res_co.stale_if_error && validate_max_age res res_co.stale_if_error add_time)
    || (ltb_ℤ (pos 0) co.stale_if_error && validate_max_age res co.stale_if_error add_time)

unfoldable pub validate_max_age_cached_stale_response :
    RequestDirectives → Option ResponseDirectives → Response → ℤ → Bool
validate_max_age_cached_stale_response co res_co res add_time =
    let on_error : Bool = elim res_co [
      | none ↦ false
      | some r ↦ within_stale_if_error co r res add_time
    ] in
    if co.max_stale_set
    then true
    else if on_error
    then true
    else if ltb_ℤ co.max_stale (pos 0)
    then false
    else validate_max_age res co.max_stale add_time
