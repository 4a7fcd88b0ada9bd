-- ===== src/Configuration/Agnostic/Parser.antt =====
-- plugins/souin/agnostic/configuration_parser.go: parseDefaultCache, parseURLs, parseSurrogateKeys
-- and ParseConfiguration.
use souin.Prelude.{
  ◌*◌, String, Bool, true, false, Option, none, some, [], ◌==◌, ◌>>=◌, or_else, if◌then◌else◌,
}
use souin.Prelude.Int.{ℤ, pos}
use souin.Clock.{second}
use souin.Entries.{Entries, store}
use souin.Configuration.{Url, DefaultCache, SurrogateKeys, BaseConfiguration, no_default_cache}
use souin.Configuration.Dynamic.{
  Value, as_text, as_bool, as_object, items, as_uint64, text_or_empty, each, as_texts, as_ints,
  range_entries,
}
use souin.Configuration.Setting.{Setting, setting_of, set_default_cache}
use souin.Configuration.Agnostic.{
  parse_api, parse_cache_keys, parse_provider, parse_cdn, parse_regex, parse_timeout,
  duration_setting,
}

-- The configuration that parseDefaultCache starts from.
abbrev pub agnostic_default : DefaultCache
agnostic_default = record no_default_cache { mapping_eviction_interval = pos (3600 * second) }

module _ (parse_duration : String → Option ℤ) where
  -- The switch of parseDefaultCache. Each key is met once, so a list that the code appends to is
  -- the initial, empty one.
  unfoldable pub default_cache_setting : String → Value → Option (Option Setting)
  default_cache_setting k v =
      if k == "allowed_http_verbs"
      then setting_of Setting.allowed_http_verbs (as_texts v)
      else if k == "allowed_additional_status_codes"
      then setting_of Setting.allowed_additional_status_codes (as_ints v)
      else if k == "badger"
      then setting_of Setting.badger (parse_provider true true v)
      else if k == "cache_name"
      then setting_of Setting.cache_name (some (text_or_empty v))
      else if k == "cdn"
      then setting_of Setting.cdn (parse_cdn v)
      else if k == "etcd"
      then setting_of Setting.etcd (parse_provider true true v)
      else if k == "headers"
      then setting_of Setting.headers (as_texts v)
      else if k == "mapping_eviction_interval"
      then duration_setting parse_duration Setting.mapping_eviction_interval v
      else if k == "mode"
      then setting_of Setting.mode (some (text_or_empty v))
      else if k == "nats"
      then setting_of Setting.nats (parse_provider true false v)
      else if k == "nuts"
      then setting_of Setting.nuts (parse_provider true true v)
      else if k == "otter"
      then setting_of Setting.otter (parse_provider true true v)
      else if k == "olric"
      then setting_of Setting.olric (parse_provider true true v)
      else if k == "redis"
      then setting_of Setting.redis (parse_provider true true v)
      else if k == "regex"
      then setting_of Setting.regex (parse_regex v)
      else if k == "simplefs"
      then setting_of Setting.simplefs (parse_provider false true v)
      else if k == "timeout"
      then setting_of Setting.timeout (parse_timeout parse_duration v)
      else if k == "ttl"
      then duration_setting parse_duration Setting.ttl v
      else if k == "stale"
      then duration_setting parse_duration Setting.stale v
      else if k == "storers"
      then setting_of Setting.storers (as_texts v)
      else if k == "default_cache_control"
      then setting_of Setting.default_cache_control (some (text_or_empty v))
      else if k == "max_cacheable_body_bytes"
      then setting_of Setting.max_body_bytes (some (or_else (as_uint64 v) 0))
      else some none

  unfoldable pub parse_default_cache : Entries Value → Option DefaultCache
  unfolding range_entries set_default_cache default_cache_setting
  parse_default_cache m = range_entries (set_default_cache default_cache_setting) m agnostic_default

  -- One key of a URL. Its headers are read from the block of the URL, not from the value.
  unfoldable pub url_entry : Value → String → Value → Url → Option Url
  unfolding items each as_text text_or_empty
  url_entry block k v u =
      if k == "headers"
      then elim block [
        | Value.texts values ↦ some (record u { headers = values })
        | Value.array values ↦
            each as_text (items values) >>= λ hs. some (record u { headers = hs })
        | _ ↦ some (record u { headers = [] })
      ]
      else if k == "ttl"
      then (as_text v >>= λ s. some (record u { ttl = or_else (parse_duration s) u.ttl }))
      else if k == "default_cache_control"
      then some (record u { default_cache_control = text_or_empty v })
      else some u

  unfoldable pub urls_entry : String → Value → Entries Url → Option (Entries Url)
  unfolding as_object range_entries url_entry store
  urls_entry k v urls = do
    block ← as_object v
    u ←
        range_entries (url_entry v) block
          (record { ttl = pos 0; headers = []; default_cache_control = "" })
    some (store k u urls)

  unfoldable pub parse_urls : Entries Value → Option (Entries Url)
  unfolding range_entries urls_entry
  parse_urls m = range_entries urls_entry m []

unfoldable pub surrogate_header : String → Value → Entries String → Option (Entries String)
unfolding as_text store
surrogate_header k v headers = as_text v >>= λ s. some (store k s headers)

unfoldable pub surrogate_entry : String → Value → SurrogateKeys → Option SurrogateKeys
unfolding as_object as_text range_entries surrogate_header
surrogate_entry k v s =
    if k == "headers"
    then (as_object v >>= λ m. range_entries surrogate_header m s.headers >>= λ headers.
        some (record s { headers = headers }))
    else if k == "url"
    then (as_text v >>= λ url. some (record s { url = url }))
    else some s

unfoldable pub surrogates_entry :
    String → Value → Entries SurrogateKeys → Option (Entries SurrogateKeys)
unfolding as_object range_entries surrogate_entry store
surrogates_entry k v u = do
  block ← as_object v
  s ← range_entries surrogate_entry block (record { storer = ""; url = ""; headers = [] })
  some (store k s u)

unfoldable pub parse_surrogate_keys : Entries Value → Option (Entries SurrogateKeys)
unfolding range_entries surrogates_entry
parse_surrogate_keys m = range_entries surrogates_entry m []

module _ (parse_duration : String → Option ℤ) (compiles : String → Bool) where
  unfoldable pub configuration_entry : String → Value → BaseConfiguration → Option BaseConfiguration
  unfolding as_object as_text as_bool
  configuration_entry k v c =
      if k == "api"
      then (as_object v >>= parse_api >>= λ a. some (record c { api = a }))
      else if k == "cache_keys"
      then (as_object v >>= parse_cache_keys compiles >>= λ cs. some (record c { cache_keys = cs }))
      else if k == "default_cache"
      then (as_object v >>= parse_default_cache parse_duration >>= λ dc.
          some (record c { default_cache = some dc }))
      else if k == "log_level"
      then (as_text v >>= λ s. some (record c { log_level = s }))
      else if k == "urls"
      then (as_object v >>= parse_urls parse_duration >>= λ us. some (record c { urls = us }))
      else if k == "ykeys"
      then (as_object v >>= parse_surrogate_keys >>= λ ks. some (record c { ykeys = ks }))
      else if k == "surrogate_keys"
      then (as_object v >>= parse_surrogate_keys >>= λ ks. some (record c { surrogate_keys = ks }))
      else if k == "disable_surrogate_key"
      then (as_bool v >>= λ b. some (record c { surrogate_key_disabled = b }))
      else some c

  -- ParseConfiguration
  unfoldable pub parse_configuration : Entries Value → BaseConfiguration → Option BaseConfiguration
  unfolding range_entries configuration_entry
  parse_configuration m c = range_entries configuration_entry m c
