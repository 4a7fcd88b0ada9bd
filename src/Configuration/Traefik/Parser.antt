-- ===== src/Configuration/Traefik/Parser.antt =====
-- plugins/traefik/main.go: parseConfiguration. The structure Configuration of configuration.go has the
-- fields of BaseConfiguration but for the name of the plugin, which stays empty here. The decoding of
-- `ykeys`, through JSON, is an argument.
use souin.Prelude.{String, Bool, Option, none, some, [], ◌==◌, ◌>>=◌, or_else, if◌then◌else◌}
use souin.Prelude.Int.{ℤ, pos}
use souin.Entries.{Entries, load, store}
use souin.Configuration.{
  Url, DefaultCache, SurrogateKeys, BaseConfiguration, no_configuration, no_default_cache,
}
use souin.Configuration.Dynamic.{Value, as_text, as_bool, as_object, as_uint64, range_entries}
use souin.Configuration.Setting.{Setting, setting_of, set_default_cache}
use souin.Configuration.Agnostic.{parse_timeout, duration_setting}
use souin.Configuration.Traefik.{
  parse_string_slice, parse_int_slice, parse_api, config_cache_key, parse_cache_keys, parse_cdn,
}

-- The pattern of `regex`; a block without "exclude" is a panic.
unfoldable pub regex_setting : Value → Option (Option Setting)
unfolding as_object as_text load
regex_setting v = as_object v >>= load "exclude" >>= as_text >>= λ exclude.
    some (if exclude == "" then none else some (Setting.regex exclude))

module _ (to_bool : Value → Bool) (parse_duration : String → Option ℤ) where
  -- The switch on the keys of `default_cache`. The key of the largest body is spelled
  -- "max_cachable_body_bytes".
  unfoldable pub default_cache_setting : String → Value → Option (Option Setting)
  unfolding regex_setting parse_string_slice parse_int_slice parse_cdn config_cache_key
      parse_timeout duration_setting setting_of as_text as_uint64
  default_cache_setting k v =
      if k == "cache_name"
      then setting_of Setting.cache_name (as_text v)
      else if k == "cdn"
      then setting_of Setting.cdn (parse_cdn to_bool v)
      else if k == "headers"
      then setting_of Setting.headers (parse_string_slice v)
      else if k == "key"
      then setting_of Setting.key (config_cache_key to_bool v)
      else if k == "mode"
      then setting_of Setting.mode (as_text v)
      else if k == "regex"
      then regex_setting v
      else if k == "timeout"
      then setting_of Setting.timeout (parse_timeout parse_duration v)
      else if k == "ttl"
      then duration_setting parse_duration Setting.ttl v
      else if k == "allowed_http_verbs"
      then setting_of Setting.allowed_http_verbs (parse_string_slice v)
      else if k == "allowed_additional_status_codes"
      then setting_of Setting.allowed_additional_status_codes (parse_int_slice v)
      else if k == "stale"
      then duration_setting parse_duration Setting.stale v
      else if k == "storers"
      then setting_of Setting.storers (parse_string_slice v)
      else if k == "default_cache_control"
      then setting_of Setting.default_cache_control (as_text v)
      else if k == "max_cachable_body_bytes"
      then setting_of Setting.max_body_bytes (some (or_else (as_uint64 v) 0))
      else some none

  unfoldable pub parse_default_cache : Entries Value → Option DefaultCache
  unfolding range_entries set_default_cache default_cache_setting
  parse_default_cache m = range_entries (set_default_cache default_cache_setting) m no_default_cache

  -- One URL; the panic is that of a block with no "ttl", or with values of another type.
  unfoldable pub url_of : Value → Option Url
  unfolding as_object as_text load parse_string_slice
  url_of v = do
    block ← as_object v
    headers ← parse_string_slice (or_else (load "headers" block) Value.nil)
    ttl ← load "ttl" block >>= as_text
    control ← elim (load "default_cache_control" block) [ none ↦ some "" | some c ↦ as_text c ]
    some (record {
      headers = headers;
      ttl = or_else (parse_duration ttl) (pos 0);
      default_cache_control = control;
    })

  unfoldable pub urls_entry : String → Value → Entries Url → Option (Entries Url)
  unfolding url_of store
  urls_entry k v urls = url_of v >>= λ u. some (store k u urls)

  unfoldable pub parse_urls : Entries Value → Option (Entries Url)
  unfolding range_entries urls_entry
  parse_urls m = range_entries urls_entry m []

  module _ (compiles : String → Bool) (decode : Value → Entries SurrogateKeys) where
    unfoldable pub configuration_entry :
        String → Value → BaseConfiguration → Option BaseConfiguration
    unfolding as_object as_text as_bool parse_api parse_cache_keys parse_default_cache parse_urls
    configuration_entry k v c =
        if k == "api"
        then (as_object v >>= parse_api >>= λ a. some (record c { api = a }))
        else if k == "cache_keys"
        then (as_object v >>= parse_cache_keys to_bool compiles >>= λ ks.
            some (record c { cache_keys = ks }))
        else if k == "default_cache"
        then (as_object v >>= parse_default_cache >>= λ dc.
            some (record c { default_cache = some dc }))
        else if k == "log_level"
        then (as_text v >>= λ s. some (record c { log_level = s }))
        else if k == "urls"
        then (as_object v >>= parse_urls >>= λ us. some (record c { urls = us }))
        else if k == "ykeys"
        then some (record c { ykeys = decode v })
        else if k == "disable_surrogate_key"
        then (as_bool v >>= λ b. some (record c { surrogate_key_disabled = b }))
        else some c

    unfoldable pub parse_configuration : Entries Value → Option BaseConfiguration
    unfolding range_entries configuration_entry
    parse_configuration m = range_entries configuration_entry m no_configuration
