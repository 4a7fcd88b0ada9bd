-- ===== src/Configuration/Agnostic.antt =====
-- plugins/souin/agnostic/configuration_parser.go. A failed type assertion is a panic, `none`.
-- time.ParseDuration and the compiler of regular expressions are arguments.
pub mod Parser
pub mod Laws
use souin.Prelude.{
  ℕ, ◌*◌, String, Bool, true, false, Option, none, some, List, [], ◌∷◌, ◌++◌, ◌==◌, ◌>>=◌, or_else,
  if◌then◌else◌,
}
use souin.Prelude.Int.{ℤ, pos}
use souin.Clock.{second}
use souin.Entries.{Entries, load, store}
use souin.Context.Key.{KeyConfig}
use souin.Configuration.{
  Url, CacheProvider, Timeout, Cdn, DefaultCache, ApiEndpoint, Api, SurrogateKeys, CacheKeys,
  BaseConfiguration, no_provider, no_key, no_cdn, no_endpoint, no_api, no_default_cache,
}
use souin.Configuration.Dynamic.{
  Value, as_text, as_bool, as_object, as_array, as_uint64, text_or_empty, each, as_texts, as_ints,
  range_entries,
}
use souin.Configuration.Setting.{Setting, set_default_cache}

-- An endpoint whose block is a map, even an empty one, is enabled.
unfoldable pub endpoint : Option (Entries Value) → ApiEndpoint
unfolding load text_or_empty
endpoint none = no_endpoint
endpoint (some m) = record no_endpoint {
  enable = true;
  base_path = text_or_empty (or_else (load "basepath" m) Value.nil);
}

-- The loop of parseAPI keeps the blocks, and sets the endpoints after it.
pub record ApiBlocks : Type 0 where
  pub base_path : String
  pub debug : Option (Entries Value)
  pub prometheus : Option (Entries Value)
  pub souin : Option (Entries Value)

unfoldable pub api_block : String → Value → ApiBlocks → Option ApiBlocks
unfolding as_text as_object
api_block k v b =
    if k == "basepath"
    then (as_text v >>= λ s. some (record b { base_path = s }))
    else if k == "debug"
    then some (record b { debug = as_object v })
    else if k == "prometheus"
    then some (record b { prometheus = as_object v })
    else if k == "souin"
    then some (record b { souin = as_object v })
    else some b

unfoldable pub parse_api : Entries Value → Option Api
unfolding range_entries api_block endpoint
parse_api m = do
  b ←
      range_entries api_block m
        (record { base_path = ""; debug = none; prometheus = none; souin = none })
  some (record no_api {
    base_path = b.base_path;
    debug = endpoint b.debug;
    prometheus = endpoint b.prometheus;
    souin = endpoint b.souin;
  })

-- One entry of a cache key: a flag is set by its name, whatever its value.
unfoldable pub key_entry : String → Value → KeyConfig → Option KeyConfig
unfolding as_texts as_text
key_entry k v ck =
    if k == "disable_body"
    then some (record ck { disable_body = true })
    else if k == "disable_host"
    then some (record ck { disable_host = true })
    else if k == "disable_method"
    then some (record ck { disable_method = true })
    else if k == "disable_query"
    then some (record ck { disable_query = true })
    else if k == "sort_query"
    then some (record ck { sort_query = true })
    else if k == "disable_scheme"
    then some (record ck { disable_scheme = true })
    else if k == "disable_vary"
    then some (record ck { disable_vary = true })
    else if k == "hash"
    then some (record ck { hash = true })
    else if k == "hide"
    then some (record ck { hide = true })
    else if k == "headers"
    then (as_texts v >>= λ hs. some (record ck { headers = hs }))
    else if k == "template"
    then (as_text v >>= λ s. some (record ck { template = s }))
    else some ck

-- A pattern that is no regular expression is a panic.
unfoldable pub parse_cache_keys : (String → Bool) → Entries Value → Option CacheKeys
unfolding as_object range_entries key_entry
parse_cache_keys compiles [] = some []
parse_cache_keys compiles ((k, v) ∷ m) = do
  block ← as_object v
  ck ← range_entries key_entry block no_key
  cache_keys ← (if compiles k then parse_cache_keys compiles m else none)
  some ((k, ck) ∷ cache_keys)

-- The blocks of the storages differ in the keys that they read.
unfoldable pub provider_entry : Bool → Bool → String → Value → CacheProvider → Option CacheProvider
unfolding as_object text_or_empty
provider_entry reads_url reads_path k v p =
    if k == "url"
    then some (if reads_url then record p { url = text_or_empty v } else p)
    else if k == "path"
    then some (if reads_path then record p { path = text_or_empty v } else p)
    else if k == "configuration"
    then (as_object v >>= λ _. some (record p { configuration = v }))
    else some p

unfoldable pub parse_provider : Bool → Bool → Value → Option CacheProvider
unfolding as_object range_entries provider_entry
parse_provider reads_url reads_path v =
    as_object v >>= λ m. range_entries (provider_entry reads_url reads_path) m no_provider

unfoldable pub cdn_entry : String → Value → Cdn → Option Cdn
unfolding as_bool text_or_empty
cdn_entry k v c =
    if k == "api_key"
    then some (record c { api_key = text_or_empty v })
    else if k == "dynamic"
    then (as_bool v >>= λ b. some (record c { dynamic = b }))
    else if k == "email"
    then some (record c { email = text_or_empty v })
    else if k == "hostname"
    then some (record c { hostname = text_or_empty v })
    else if k == "network"
    then some (record c { network = text_or_empty v })
    else if k == "provider"
    then some (record c { provider = text_or_empty v })
    else if k == "service_id"
    then some (record c { service_id = text_or_empty v })
    else if k == "strategy"
    then some (record c { strategy = text_or_empty v })
    else if k == "zone_id"
    then some (record c { zone_id = text_or_empty v })
    else some c

unfoldable pub parse_cdn : Value → Option Cdn
unfolding as_object range_entries cdn_entry
parse_cdn v = as_object v >>= λ m. range_entries cdn_entry m (record no_cdn { dynamic = true })

unfoldable pub regex_entry : String → Value → String → Option String
unfolding as_text
regex_entry k v exclude =
    if k == "exclude" then elim v [ Value.nil ↦ some exclude | v' ↦ as_text v' ] else some exclude

unfoldable pub parse_regex : Value → Option String
unfolding as_object range_entries regex_entry
parse_regex v = as_object v >>= λ m. range_entries regex_entry m ""

module _ (parse_duration : String → Option ℤ) where
  unfoldable pub timeout_entry : String → Value → Timeout → Option Timeout
  unfolding as_text
  timeout_entry k v t =
      if k == "backend"
      then (as_text v >>= λ s. some (record t { backend = or_else (parse_duration s) (pos 0) }))
      else if k == "cache"
      then (as_text v >>= λ s. some (record t { cache = or_else (parse_duration s) (pos 0) }))
      else some t

  unfoldable pub parse_timeout : Value → Option Timeout
  unfolding as_object range_entries timeout_entry
  parse_timeout v =
      as_object v >>= λ m. range_entries timeout_entry m (record { backend = pos 0; cache = pos 0 })

  -- A duration that does not parse sets nothing.
  unfoldable pub duration_setting : (ℤ → Setting) → Value → Option (Option Setting)
  unfolding as_text
  duration_setting set v =
      as_text v >>= λ s. elim (parse_duration s) [ none ↦ some none | some d ↦ some (some (set d)) ]
