-- ===== src/Configuration/Kratos/Parser.antt =====
-- plugins/kratos/configuration.go: parseDefaultCache, parseURLs, parseSurrogateKeys and
-- ParseConfiguration.
use souin.Prelude.{
  ℕ, String, Bool, true, false, Option, none, some, [], ◌++◌, ◌==◌, ◌>>=◌, or_else, if◌then◌else◌,
  map,
}
use souin.Prelude.Int.{ℤ, pos}
use souin.Entries.{Entries, load, store}
use souin.Configuration.{
  Url, DefaultCache, SurrogateKeys, BaseConfiguration, no_configuration, no_default_cache,
}
use souin.Configuration.Dynamic.{range_entries}
use souin.Configuration.Setting.{Setting, setting_of, set_default_cache}
use souin.Configuration.Kratos.{
  KratosValue, Loaded, string_or_empty, map_or_empty, strings, parse_api, parse_cache_keys,
  parse_provider, parse_cdn, parse_timeout,
}

module _ {V : Type 0} (kratos : KratosValue V) (parse_duration : String → Option ℤ) (fuel : ℕ) where
  -- A duration that does not parse is zero; only a value that is no text sets nothing.
  unfoldable pub duration_setting : (ℤ → Setting) → V → Option (Option Setting)
  duration_setting set v = elim (kratos.string v) [
    | none ↦ some none
    | some s ↦ some (some (set (or_else (parse_duration s) (pos 0))))
  ]

  unfoldable pub regex_setting : V → Option (Option Setting)
  unfolding load
  regex_setting v = load "exclude" (map_or_empty kratos v) >>= λ x.
      let exclude = string_or_empty kratos x in
      some (if exclude == "" then none else some (Setting.regex exclude))

  unfoldable pub max_body_setting : V → Option (Option Setting)
  max_body_setting v = elim (kratos.load v) [
    | Loaded.uint64 n ↦ some (some (Setting.max_body_bytes n))
    | _ ↦ some none
  ]

  -- The switch of parseDefaultCache, but for the status codes.
  unfoldable pub default_cache_setting : String → V → Option (Option Setting)
  default_cache_setting k v =
      if k == "allowed_http_verbs"
      then setting_of Setting.allowed_http_verbs (some (strings kratos v))
      else if k == "badger"
      then setting_of Setting.badger (parse_provider kratos parse_duration fuel true true v)
      else if k == "cache_name"
      then setting_of Setting.cache_name (some (string_or_empty kratos v))
      else if k == "cdn"
      then setting_of Setting.cdn (parse_cdn kratos v)
      else if k == "etcd"
      then setting_of Setting.etcd (parse_provider kratos parse_duration fuel true true v)
      else if k == "headers"
      then setting_of Setting.headers (some (strings kratos v))
      else if k == "nats"
      then setting_of Setting.nats (parse_provider kratos parse_duration fuel true false v)
      else if k == "nuts"
      then setting_of Setting.nuts (parse_provider kratos parse_duration fuel true true v)
      else if k == "otter"
      then setting_of Setting.otter (parse_provider kratos parse_duration fuel false false v)
      else if k == "olric"
      then setting_of Setting.olric (parse_provider kratos parse_duration fuel true true v)
      else if k == "redis"
      then setting_of Setting.redis (parse_provider kratos parse_duration fuel true true v)
      else if k == "regex"
      then regex_setting v
      else if k == "simplefs"
      then setting_of Setting.simplefs (parse_provider kratos parse_duration fuel false true v)
      else if k == "timeout"
      then setting_of Setting.timeout (parse_timeout kratos parse_duration v)
      else if k == "ttl"
      then duration_setting Setting.ttl v
      else if k == "stale"
      then duration_setting Setting.stale v
      else if k == "storers"
      then setting_of Setting.storers (some (strings kratos v))
      else if k == "default_cache_control"
      then setting_of Setting.default_cache_control (some (string_or_empty kratos v))
      else if k == "max_cacheable_body_bytes"
      then max_body_setting v
      else some none

  -- The case of the status codes also empties the verbs.
  unfoldable pub set_status_codes : V → DefaultCache → DefaultCache
  set_status_codes v dc = record dc {
    allowed_http_verbs = [];
    allowed_additional_status_codes =
        dc.allowed_additional_status_codes
        ++ map (λ x. or_else (kratos.int x) (pos 0)) (or_else (kratos.slice v) []);
  }

  unfoldable pub default_cache_entry : String → V → DefaultCache → Option DefaultCache
  unfolding set_default_cache default_cache_setting set_status_codes
  default_cache_entry k v dc =
      if k == "allowed_additional_status_codes"
      then some (set_status_codes v dc)
      else set_default_cache default_cache_setting k v dc

  unfoldable pub parse_default_cache : Entries V → Option DefaultCache
  unfolding range_entries default_cache_entry
  parse_default_cache m = range_entries default_cache_entry m no_default_cache

  -- One URL; the panic is that of a block with no "ttl".
  unfoldable pub url_of : V → Option Url
  unfolding load
  url_of v =
      let block = map_or_empty kratos v in
      load "ttl" block >>= λ ttl. some (record {
        headers = elim (load "headers" block) [ none ↦ [] | some hs ↦ strings kratos hs ];
        ttl = or_else (kratos.string ttl >>= parse_duration) (pos 0);
        default_cache_control = elim (load "default_cache_control" block) [
          | none ↦ ""
          | some c ↦ string_or_empty kratos c
        ];
      })

  unfoldable pub urls_entry : String → V → Entries Url → Option (Entries Url)
  unfolding url_of store
  urls_entry k v urls = url_of v >>= λ u. some (store k u urls)

  unfoldable pub parse_urls : Entries V → Option (Entries Url)
  unfolding range_entries urls_entry
  parse_urls m = range_entries urls_entry m []

module _ {V : Type 0} (kratos : KratosValue V) where
  unfoldable pub surrogate_header : String → V → Entries String → Option (Entries String)
  unfolding store
  surrogate_header k v headers = some (store k (string_or_empty kratos v) headers)

  unfoldable pub surrogate_entry : String → V → SurrogateKeys → Option SurrogateKeys
  unfolding range_entries surrogate_header
  surrogate_entry k v s =
      if k == "headers"
      then (range_entries surrogate_header (map_or_empty kratos v) [] >>= λ headers.
          some (record s { headers = headers }))
      else if k == "url"
      then some (record s { url = string_or_empty kratos v })
      else some s

  unfoldable pub surrogates_entry :
      String → V → Entries SurrogateKeys → Option (Entries SurrogateKeys)
  unfolding range_entries surrogate_entry store
  surrogates_entry k v u = do
    s ←
        range_entries surrogate_entry (map_or_empty kratos v)
          (record { storer = ""; url = ""; headers = [] })
    some (store k s u)

  unfoldable pub parse_surrogate_keys : Entries V → Option (Entries SurrogateKeys)
  unfolding range_entries surrogates_entry
  parse_surrogate_keys m = range_entries surrogates_entry m []

module _ {V : Type 0} (kratos : KratosValue V) (parse_duration : String → Option ℤ) (fuel : ℕ)
    (compiles : String → Bool) where
  unfoldable pub configuration_entry : String → V → BaseConfiguration → Option BaseConfiguration
  configuration_entry k v c =
      let m = map_or_empty kratos v in
      if k == "api"
      then (parse_api kratos m >>= λ a. some (record c { api = a }))
      else if k == "cache_keys"
      then (parse_cache_keys kratos compiles m >>= λ ks. some (record c { cache_keys = ks }))
      else if k == "default_cache"
      then (parse_default_cache kratos parse_duration fuel m >>= λ dc.
          some (record c { default_cache = some dc }))
      else if k == "log_level"
      then some (record c { log_level = string_or_empty kratos v })
      else if k == "urls"
      then (parse_urls kratos parse_duration fuel m >>= λ us. some (record c { urls = us }))
      else if k == "ykeys"
      then (parse_surrogate_keys kratos m >>= λ ks. some (record c { ykeys = ks }))
      else if k == "surrogate_keys"
      then (parse_surrogate_keys kratos m >>= λ ks. some (record c { surrogate_keys = ks }))
      else if k == "disable_surrogate_key"
      then some (record c { surrogate_key_disabled = true })
      else some c

  -- ParseConfiguration, from the value of the key "httpcache".
  unfoldable pub parse_configuration : V → Option BaseConfiguration
  unfolding range_entries configuration_entry
  parse_configuration v = range_entries configuration_entry (map_or_empty kratos v) no_configuration
