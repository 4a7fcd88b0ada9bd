-- ===== src/Caddy/Handler.antt =====
-- plugins/caddy/httpcache.go and app.go: how the configuration of a handler is completed by that of the
-- global block.
pub mod Inheritance
pub mod Storers
use souin.Prelude.{
  ℕ, ◌*◌, String, Bool, true, false, not, ◌&&◌, ◌||◌, Option, none, some, List, [], ◌∷◌, ◌++◌, ◌==◌,
  is_some, eqb, or_else, if◌then◌else◌,
}
use souin.Prelude.Int.{ℤ, pos, eqb_ℤ}
use souin.Clock.{second}
use souin.Entries.{Entries}
use souin.Context.Key.{KeyConfig}
use souin.Configuration.{CacheProvider, Timeout, Api, CacheKeys, no_api}
use souin.Configuration.Dynamic.{Value}
use souin.Caddy.{DefaultCache, Configuration, no_default_cache, no_configuration}

-- SouinApp: the global block. Its storers, its surrogate storage and its channel are Storers.
pub record SouinApp : Type 0 where
  pub default_cache : DefaultCache
  pub surrogate_key_disabled : Bool
  pub cache_keys : CacheKeys
  pub api : Api
  pub log_level : String

-- SouinCaddyMiddleware. `own` holds its fields that are spelled as those of DefaultCache; of the two
-- fields for the rules, `rules` is cacheKeys and `cache_keys` is CacheKeys, none where it is nil.
pub record SouinCaddyMiddleware : Type 0 where
  pub configuration : Configuration
  pub rules : CacheKeys
  pub cache_keys : Option CacheKeys
  pub log_level : String
  pub own : DefaultCache

-- Configuration.GetDefaultCache: the address of a field, which is never nil.
unfoldable pub get_default_cache : Configuration → Option DefaultCache
get_default_cache c = some c.default_cache

abbrev is_set : Value → Bool
is_set Value.nil = false
is_set v = true

-- The flag that configurationPropertyMapper computes.
unfoldable pub is_distributed : DefaultCache → Bool
is_distributed s =
    not (s.olric.url == "")
    || (not (s.olric.path == "")
        || (is_set s.olric.configuration
            || (is_set s.etcd.configuration
                || (not (s.redis.url == "") || is_set s.redis.configuration))))

unfoldable pub configuration_property_mapper : SouinCaddyMiddleware → SouinCaddyMiddleware
unfolding get_default_cache is_distributed
configuration_property_mapper s = elim (get_default_cache s.configuration) [
  | none ↦ record s {
    configuration = record no_configuration {
      cache_keys = s.rules;
      log_level = s.log_level;
      default_cache = record no_default_cache {
        badger = s.own.badger;
        nats = s.own.nats;
        nuts = s.own.nuts;
        simplefs = s.own.simplefs;
        otter = s.own.otter;
        key = s.own.key;
        default_cache_control = s.own.default_cache_control;
        cache_name = s.own.cache_name;
        distributed = is_distributed s.own;
        headers = s.own.headers;
        olric = s.own.olric;
        etcd = s.own.etcd;
        redis = s.own.redis;
        timeout = s.own.timeout;
        ttl = s.own.ttl;
        mapping_eviction_interval = s.own.mapping_eviction_interval;
        stale = s.own.stale;
        storers = s.own.storers;
      };
    };
  }
  | some _ ↦ s
]

abbrev pub is_zero : ℤ → Bool
is_zero d = eqb_ℤ d (pos 0)

-- The value of the handler, or else that of the global block.
abbrev pub inherit {ℓ} : {A : Type ℓ} → Bool → A → A → A
inherit is_empty own app = if is_empty then app else own

-- FromApp gives the global block the durations that neither of the two has.
unfoldable pub with_defaults : DefaultCache → DefaultCache → DefaultCache
with_defaults app own = record app {
  ttl = if is_zero app.ttl && is_zero own.ttl then pos (120 * second) else app.ttl;
  mapping_eviction_interval =
      if is_zero app.mapping_eviction_interval && is_zero own.mapping_eviction_interval
      then pos (3600 * second)
      else app.mapping_eviction_interval;
}

-- The test on the switches of a key; it does not look at sort_query.
unfoldable pub is_key_empty : KeyConfig → Bool
is_key_empty k =
    not k.disable_body
    && (not k.disable_host
        && (not k.disable_method
            && (not k.disable_query
                && (not k.disable_scheme
                    && (not k.disable_vary
                        && (not k.hash
                            && (not k.hide
                                && (elim k.headers [ [] ↦ true | _ ∷ _ ↦ false ]
                                    && k.template == ""))))))))

unfoldable pub is_provider_empty : CacheProvider → Bool
is_provider_empty c = not c.found

-- No storage is named in the handler's block.
unfoldable pub has_no_provider : DefaultCache → Bool
unfolding is_provider_empty
has_no_provider dc =
    is_provider_empty dc.badger
    && (is_provider_empty dc.etcd
        && (is_provider_empty dc.nats
            && (is_provider_empty dc.nuts
                && (is_provider_empty dc.olric
                    && (is_provider_empty dc.otter
                        && (is_provider_empty dc.redis && is_provider_empty dc.simplefs))))))

-- The default cache that FromApp leaves; `app` has its defaults.
unfoldable pub inherit_default_cache : DefaultCache → DefaultCache → DefaultCache
unfolding is_key_empty has_no_provider
inherit_default_cache app dc =
    let bare = has_no_provider dc in
    record dc {
      allowed_http_verbs = dc.allowed_http_verbs ++ app.allowed_http_verbs;
      allowed_additional_status_codes =
          dc.allowed_additional_status_codes ++ app.allowed_additional_status_codes;
      cdn = app.cdn;
      headers = inherit (not (is_some dc.headers)) dc.headers app.headers;
      ttl = inherit (is_zero dc.ttl) dc.ttl app.ttl;
      mapping_eviction_interval =
          inherit (is_zero dc.mapping_eviction_interval) dc.mapping_eviction_interval
            app.mapping_eviction_interval;
      stale = inherit (is_zero dc.stale) dc.stale app.stale;
      storers = inherit (elim dc.storers [ [] ↦ true | _ ∷ _ ↦ false ]) dc.storers app.storers;
      timeout = record {
        backend = inherit (is_zero dc.timeout.backend) dc.timeout.backend app.timeout.backend;
        cache = inherit (is_zero dc.timeout.cache) dc.timeout.cache app.timeout.cache;
      };
      mode = inherit (dc.mode == "") dc.mode app.mode;
      key = inherit (is_key_empty dc.key) dc.key app.key;
      default_cache_control =
          inherit (dc.default_cache_control == "") dc.default_cache_control
            app.default_cache_control;
      max_body_bytes = inherit (eqb dc.max_body_bytes 0) dc.max_body_bytes app.max_body_bytes;
      cache_name = inherit (dc.cache_name == "") dc.cache_name app.cache_name;
      distributed = inherit bare dc.distributed app.distributed;
      olric = inherit bare dc.olric app.olric;
      redis = inherit bare dc.redis app.redis;
      etcd = inherit bare dc.etcd app.etcd;
      badger = inherit bare dc.badger app.badger;
      nats = inherit bare dc.nats app.nats;
      nuts = inherit bare dc.nuts app.nuts;
      otter = inherit bare dc.otter app.otter;
      simplefs = inherit bare dc.simplefs app.simplefs;
      exclude = inherit (dc.exclude == "") dc.exclude app.exclude;
    }

-- FromApp: the handler, and the global block. The branches for a handler that has no default cache
-- are those that get_default_cache rules out. The loop over the rules appends each rule again.
unfoldable pub from_app : SouinCaddyMiddleware → SouinApp → SouinCaddyMiddleware × SouinApp
unfolding get_default_cache with_defaults inherit_default_cache
from_app s app =
    let s' : SouinCaddyMiddleware = elim (get_default_cache s.configuration) [
      | none ↦ record s { configuration = no_configuration }
      | some _ ↦ s
    ] in
    let c = s'.configuration in
    let app' = record app { default_cache = with_defaults app.default_cache c.default_cache } in
    let dc = app'.default_cache in
    let bare = record c {
      default_cache = record no_default_cache {
        allowed_http_verbs = dc.allowed_http_verbs;
        allowed_additional_status_codes = dc.allowed_additional_status_codes;
        headers = dc.headers;
        key = dc.key;
        ttl = dc.ttl;
        stale = dc.stale;
        default_cache_control = dc.default_cache_control;
        mapping_eviction_interval = dc.mapping_eviction_interval;
        cache_name = dc.cache_name;
        timeout = dc.timeout;
      };
    } in
    let full = record c {
      cache_keys = c.cache_keys ++ c.cache_keys;
      default_cache = inherit_default_cache dc c.default_cache;
      log_level = inherit (c.log_level == "") c.log_level app.log_level;
      surrogate_key_disabled =
          inherit (not c.surrogate_key_disabled) c.surrogate_key_disabled
            app.surrogate_key_disabled;
    } in
    elim (get_default_cache c) [
      | none ↦ (record s' { configuration = bare }, app')
      | some _ ↦ (
        record s' {
          configuration = full;
          cache_keys = some (or_else s'.cache_keys app.cache_keys);
        },
        app',
      )
    ]

-- The configuration that parseCaddyfileGlobalOption parses into, and what the app takes of it.
abbrev pub global_default : Configuration
global_default = record no_configuration {
  default_cache = record no_default_cache {
    headers = some [];
    ttl = pos (120 * second);
    mapping_eviction_interval = pos (3600 * second);
  };
}

unfoldable pub app_of : Configuration → SouinApp
app_of cfg = record {
  default_cache = cfg.default_cache;
  api = cfg.api;
  cache_keys = cfg.cache_keys;
  log_level = cfg.log_level;
  surrogate_key_disabled = cfg.surrogate_key_disabled;
}
