-- ===== src/Configuration.antt =====
-- configurationtypes/types.go: the records of a configuration, and pkg/middleware/configuration.go.
pub mod Dynamic
pub mod Setting
pub mod Order
pub mod Agnostic
pub mod Kratos
pub mod Traefik
pub mod Json
use souin.Prelude.{
  ℕ, String, Bool, true, false, ◌*◌, ◌&&◌, not, Option, none, some, List, [], ◌∷◌, ◌==◌,
  if◌then◌else◌,
}
use souin.Prelude.Int.{ℤ, pos, eqb_ℤ}
use souin.Clock.{second}
use souin.Entries.{Entries}
use souin.Text.{◌<>◌}
use souin.Context.Key.{KeyConfig}
use souin.Configuration.Dynamic.{Value}

-- A duration is a number of nanoseconds.
pub record Url : Type 0 where
  pub ttl : ℤ
  pub headers : List String
  pub default_cache_control : String

pub record CacheProvider : Type 0 where
  pub uuid : String
  pub found : Bool
  pub url : String
  pub path : String
  pub configuration : Value

pub record Timeout : Type 0 where
  pub backend : ℤ
  pub cache : ℤ

pub record Cdn : Type 0 where
  pub api_key : String
  pub dynamic : Bool
  pub email : String
  pub hostname : String
  pub network : String
  pub provider : String
  pub strategy : String
  pub service_id : String
  pub zone_id : String

pub record Port : Type 0 where
  pub web : String
  pub tls : String

-- `exclude` is the only field of Regex.
pub record DefaultCache : Type 0 where
  pub allowed_http_verbs : List String
  pub allowed_additional_status_codes : List ℤ
  pub badger : CacheProvider
  pub cdn : Cdn
  pub cache_name : String
  pub distributed : Bool
  pub headers : List String
  pub key : KeyConfig
  pub etcd : CacheProvider
  pub mode : String
  pub nats : CacheProvider
  pub nuts : CacheProvider
  pub olric : CacheProvider
  pub otter : CacheProvider
  pub redis : CacheProvider
  pub port : Port
  pub exclude : String
  pub simplefs : CacheProvider
  pub stale : ℤ
  pub storers : List String
  pub timeout : Timeout
  pub ttl : ℤ
  pub default_cache_control : String
  pub max_body_bytes : ℕ
  pub disable_coalescing : Bool
  pub mapping_eviction_interval : ℤ

pub record ApiEndpoint : Type 0 where
  pub base_path : String
  pub enable : Bool
  pub security : Bool

pub record User : Type 0 where
  pub username : String
  pub password : String

pub record SecurityApi : Type 0 where
  pub base_path : String
  pub enable : Bool
  pub secret : String
  pub users : List User

pub record Api : Type 0 where
  pub base_path : String
  pub debug : ApiEndpoint
  pub prometheus : ApiEndpoint
  pub souin : ApiEndpoint
  pub security : SecurityApi

-- SurrogateKeys, with the storer of the SurrogateConfiguration in it.
pub record SurrogateKeys : Type 0 where
  pub storer : String
  pub url : String
  pub headers : Entries String

-- CacheKeys, whose maps have one key each: the pattern of its regular expression.
abbrev pub CacheKeys : Type 0
CacheKeys = List (String × KeyConfig)

-- BaseConfiguration of pkg/middleware, without its logger.
pub record BaseConfiguration : Type 0 where
  pub default_cache : Option DefaultCache
  pub api : Api
  pub cache_keys : CacheKeys
  pub urls : Entries Url
  pub log_level : String
  pub plugin_name : String
  pub ykeys : Entries SurrogateKeys
  pub surrogate_keys : Entries SurrogateKeys
  pub surrogate_key_disabled : Bool

-- The zero values.
abbrev pub no_provider : CacheProvider
no_provider = record { uuid = ""; found = false; url = ""; path = ""; configuration = Value.nil }

abbrev pub no_key : KeyConfig
no_key = record {
  disable_body = false;
  disable_host = false;
  disable_method = false;
  disable_query = false;
  disable_scheme = false;
  disable_vary = false;
  sort_query = false;
  hash = false;
  hide = false;
  template = "";
  headers = [];
}

abbrev pub no_cdn : Cdn
no_cdn = record {
  api_key = "";
  dynamic = false;
  email = "";
  hostname = "";
  network = "";
  provider = "";
  strategy = "";
  service_id = "";
  zone_id = "";
}

abbrev pub no_endpoint : ApiEndpoint
no_endpoint = record { base_path = ""; enable = false; security = false }

abbrev pub no_api : Api
no_api = record {
  base_path = "";
  debug = no_endpoint;
  prometheus = no_endpoint;
  souin = no_endpoint;
  security = record { base_path = ""; enable = false; secret = ""; users = [] };
}

abbrev pub no_default_cache : DefaultCache
no_default_cache = record {
  allowed_http_verbs = [];
  allowed_additional_status_codes = [];
  badger = no_provider;
  cdn = no_cdn;
  cache_name = "";
  distributed = false;
  headers = [];
  key = no_key;
  etcd = no_provider;
  mode = "";
  nats = no_provider;
  nuts = no_provider;
  olric = no_provider;
  otter = no_provider;
  redis = no_provider;
  port = record { web = ""; tls = "" };
  exclude = "";
  simplefs = no_provider;
  stale = pos 0;
  storers = [];
  timeout = record { backend = pos 0; cache = pos 0 };
  ttl = pos 0;
  default_cache_control = "";
  max_body_bytes = 0;
  disable_coalescing = false;
  mapping_eviction_interval = pos 0;
}

-- (*DefaultCache).GetMappingEvictionInterval
unfoldable pub get_mapping_eviction_interval : DefaultCache → ℤ
get_mapping_eviction_interval d =
    if eqb_ℤ d.mapping_eviction_interval (pos 0)
    then pos (60 * second)
    else d.mapping_eviction_interval

-- The test for which (*CacheProvider).MarshalJSON prints null.
unfoldable pub is_zero_provider : CacheProvider → Bool
is_zero_provider c =
    not c.found
    && (c.url == ""
        && (c.path == ""
            && (elim c.configuration [ Value.nil ↦ true | _ ↦ false ] && c.uuid == "")))

-- The pattern of helpers.InitializeRegexp: the loop, with the text so far.
unfoldable pub url_pattern : String → Entries Url → String
url_pattern u [] = u
url_pattern u ((k, url) ∷ urls) =
    url_pattern ((if u == "" then u else u <> "|") <> ("(" <> (k <> ")"))) urls

-- The zero value of BaseConfiguration.
abbrev pub no_configuration : BaseConfiguration
no_configuration = record {
  default_cache = none;
  api = no_api;
  cache_keys = [];
  urls = [];
  log_level = "";
  plugin_name = "";
  ykeys = [];
  surrogate_keys = [];
  surrogate_key_disabled = false;
}
