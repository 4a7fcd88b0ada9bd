-- ===== src/Caddy/Handler/Inheritance.antt =====
-- What FromApp leaves in the configuration of a handler.
use souin.Prelude.{◌*◌, ◌≡◌, refl, Bool, true, false, ◌&&◌, ◌++◌, if◌then◌else◌}
use souin.Prelude.Int.{ℤ, pos}
use souin.Clock.{second}
use souin.Configuration.{no_key}
use souin.Caddy.{no_default_cache}
use souin.Caddy.Handler.{
  SouinApp, SouinCaddyMiddleware, is_zero, inherit, with_defaults, is_key_empty,
  inherit_default_cache, from_app,
}

-- The duration of a handler after FromApp, where `default` is what both get if they have none.
duration_kept :
    (own app default : ℤ)
    → is_zero default ≡ false
    → is_zero (inherit (is_zero own) own (if is_zero app && is_zero own then default else app))
      ≡ false
duration_kept own app default h = by_tests (is_zero own) (is_zero app) refl refl
  where
    by_tests :
        (t u : Bool)
        → is_zero own ≡ t
        → is_zero app ≡ u
        → is_zero (inherit t own (if u && t then default else app)) ≡ false
    by_tests false u e e' = e
    by_tests true true e e' = h
    by_tests true false e e' = e'

-- After FromApp a handler has a lifetime and an interval: neither duration is zero, whatever the two
-- blocks say.
pub from_app-durations :
    (s : SouinCaddyMiddleware) (app : SouinApp)
    → let dc = (from_app s app).0.configuration.default_cache in
      (is_zero dc.ttl ≡ false) × (is_zero dc.mapping_eviction_interval ≡ false)
unfolding from_app with_defaults inherit_default_cache
from_app-durations s app =
    let own = s.configuration.default_cache in
    (
      duration_kept own.ttl app.default_cache.ttl (pos (120 * second)) refl,
      duration_kept own.mapping_eviction_interval app.default_cache.mapping_eviction_interval
          (pos (3600 * second)) refl,
    )

-- A handler with an empty block gets every setting of the default cache of the global block, with the
-- durations that this has after FromApp, but for the switch of the coalescing, which stays off.
pub from_app-inherits :
    (s : SouinCaddyMiddleware) (app : SouinApp)
    → s.configuration.default_cache ≡ no_default_cache
    → (from_app s app).0.configuration.default_cache
      ≡ record (from_app s app).1.default_cache { disable_coalescing = false }
unfolding from_app with_defaults inherit_default_cache
from_app-inherits s app h = rw h (refl)

-- A key that only sorts the query counts as empty: FromApp puts the key of the global block in its
-- place.
pub from_app-sort_query :
    (s : SouinCaddyMiddleware) (app : SouinApp) (sorts : Bool)
    → s.configuration.default_cache.key ≡ record no_key { sort_query = sorts }
    → (from_app s app).0.configuration.default_cache.key ≡ app.default_cache.key
unfolding from_app with_defaults inherit_default_cache is_key_empty
from_app-sort_query s app sorts h = rw (h, is_key_empty) (refl)

-- The rules of the global block do not reach the handler, whose own rules are there twice.
from_app-cache_keys :
    (s : SouinCaddyMiddleware) (app : SouinApp)
    → (from_app s app).0.configuration.cache_keys
      ≡ s.configuration.cache_keys ++ s.configuration.cache_keys
unfolding from_app
from_app-cache_keys s app = refl
