-- ===== src/Caddy.antt =====
-- plugins/caddy/configuration.go: the records of the configuration of the Caddy plugin.
pub mod Dispenser
pub mod Storages
pub mod Parser
pub mod Handler
pub mod Caddyfile
pub mod Provision
pub mod Admin
use souin.Prelude.{ℕ, String, Bool, false, Option, none, some, List, [], ◌++◌}
use souin.Prelude.Int.{ℤ, pos}
use souin.Entries.{Entries}
use souin.Context.Key.{KeyConfig}
use souin.Configuration.{
  Url, CacheProvider, Timeout, Cdn, Api, CacheKeys, no_provider, no_key, no_cdn, no_api,
}

-- DefaultCache. `headers` is none where the slice is nil; `exclude` is the only field of Regex.
pub record DefaultCache : Type 0 where
  pub allowed_http_verbs : List String
  pub allowed_additional_status_codes : List ℤ
  pub badger : CacheProvider
  pub cache_name : String
  pub cdn : Cdn
  pub default_cache_control : String
  pub max_body_bytes : ℕ
  pub distributed : Bool
  pub headers : Option (List String)
  pub key : KeyConfig
  pub mode : String
  pub olric : CacheProvider
  pub redis : CacheProvider
  pub etcd : CacheProvider
  pub nats : CacheProvider
  pub nuts : CacheProvider
  pub otter : CacheProvider
  pub exclude : String
  pub storers : List String
  pub timeout : Timeout
  pub ttl : ℤ
  pub simplefs : CacheProvider
  pub stale : ℤ
  pub disable_coalescing : Bool
  pub mapping_eviction_interval : ℤ

-- Configuration, without its logger.
pub record Configuration : Type 0 where
  pub default_cache : DefaultCache
  pub api : Api
  pub cache_keys : CacheKeys
  pub urls : Entries Url
  pub log_level : String
  pub surrogate_key_disabled : Bool

abbrev pub no_default_cache : DefaultCache
no_default_cache = record {
  allowed_http_verbs = [];
  allowed_additional_status_codes = [];
  badger = no_provider;
  cache_name = "";
  cdn = no_cdn;
  default_cache_control = "";
  max_body_bytes = 0;
  distributed = false;
  headers = none;
  key = no_key;
  mode = "";
  olric = no_provider;
  redis = no_provider;
  etcd = no_provider;
  nats = no_provider;
  nuts = no_provider;
  otter = no_provider;
  exclude = "";
  storers = [];
  timeout = record { backend = pos 0; cache = pos 0 };
  ttl = pos 0;
  simplefs = no_provider;
  stale = pos 0;
  disable_coalescing = false;
  mapping_eviction_interval = pos 0;
}

abbrev pub no_configuration : Configuration
no_configuration = record {
  default_cache = no_default_cache;
  api = no_api;
  cache_keys = [];
  urls = [];
  log_level = "";
  surrogate_key_disabled = false;
}

-- append(headers, args...): a nil slice stays nil where nothing is appended.
unfoldable pub append_headers : Option (List String) → List String → Option (List String)
append_headers none [] = none
append_headers none args = some args
append_headers (some headers) args = some (headers ++ args)
