-- ===== src/Middleware/Freshness/Lifetime.antt =====
-- Which lifetimes a response gets.
use souin.Prelude.{◌≡◌, ◌≢◌, ◌⊎◌, ◌↔◌, false, some, or_else, arith, eq_iff}
use souin.Prelude.Int.{ℤ, pos, ◌*ℤ◌, ◌≤ℤ◌, ◌<ℤ◌}
use souin.Clock.{Dates, second, wrap64, sub_time}
use souin.Http.{ModeContext}
use souin.Http.Headers
use souin.Http.Headers.{Header}
use souin.Rfc.{ResponseDirectives}
use souin.Middleware.Freshness.{zero_time, max_expires, expires_freshness, from_expires, freshness}

-- A date in Expires gives a lifetime only if it lies ahead, at most ten years, and not before Date.
pub expires_freshness_iff :
    (dates : Dates) (now : ℤ) (h : Header) (exp d : ℤ)
    → dates.parse_rfc1123 (Headers.get h "Expires") ≡ some exp
    → (expires_freshness dates now h ≡ some d) ↔ (
        (d ≡ sub_time exp now)
        × (pos 0 <ℤ d)
        × (d ≤ℤ max_expires)
        × (sub_time (or_else (dates.parse_rfc1123 (Headers.get h "Date")) zero_time) exp ≤ℤ pos 0))
unfolding expires_freshness
expires_freshness_iff dates now h exp d e = rw (e, expires_freshness) (ground arith)

-- The lifetime of a response that the mode does not keep from being read: s-maxage comes before
-- max-age, max-age before Expires, Expires before the TTL of the configuration. Without Expires no
-- response is given up.
pub freshness_order :
    (dates : Dates) (now ttl : ℤ) (mode : ModeContext) (cc : ResponseDirectives) (h : Header)
    → mode.bypass_response ≡ false
    → ((pos 0 ≤ℤ cc.s_max_age)
        × (freshness dates now mode ttl cc h ≡ some (wrap64 (cc.s_max_age *ℤ pos second), false)))
      ⊎ ((cc.s_max_age <ℤ pos 0)
          × (pos 0 ≤ℤ cc.max_age)
          × (freshness dates now mode ttl cc h ≡ some (wrap64 (cc.max_age *ℤ pos second), false)))
      ⊎ ((cc.s_max_age <ℤ pos 0)
          × (cc.max_age <ℤ pos 0)
          × (Headers.get h "Expires" ≢ "")
          × (freshness dates now mode ttl cc h ≡ from_expires (expires_freshness dates now h)))
      ⊎ ((cc.s_max_age <ℤ pos 0)
          × (cc.max_age <ℤ pos 0)
          × (Headers.get h "Expires" ≡ "")
          × (freshness dates now mode ttl cc h ≡ some (ttl, false)))
unfolding freshness
freshness_order dates now ttl mode cc h live =
    rw (live, freshness) (ground (arith, eq_iff (Headers.get h "Expires") ""))
