-- ===== src/Configuration/Traefik.antt =====
-- plugins/traefik/main.go: the blocks of a configuration. Traefik gives a list also as one text. The
-- package cast, time.ParseDuration and the compiler of regular expressions are arguments; `none` is the
-- panic of a failed type assertion.
pub mod Parser
use Prim.Native.String.{[], ◌∷◌}
use souin.Prelude.{
  String, Bool, true, false, Option, none, some, List, [], ◌∷◌, ◌==◌, ◌>>=◌, is_some, or_else,
  if◌then◌else◌,
}
use souin.Prelude.Int.{ℤ}
use souin.Text.{◌<>◌, has_prefix, cut_prefix, split}
use souin.Text.Escape.{byte}
use souin.Entries.{Entries, load}
use souin.Context.Key.{KeyConfig}
use souin.Configuration.{Cdn, ApiEndpoint, Api, CacheKeys, no_key, no_cdn, no_endpoint, no_api}
use souin.Configuration.Dynamic.{
  Value, as_text, as_object, items, each, as_texts, as_int, range_entries,
}

-- The bytes of "║", and the prefix "║24║" of a list that Traefik writes as one text.
abbrev pub bar : String
bar = byte 226 ∷ byte 149 ∷ byte 145 ∷ []

abbrev pub list_prefix : String
list_prefix = bar <> ("24" <> bar)

unfoldable pub split_text : String → List String
unfolding has_prefix cut_prefix split byte
split_text value =
    if has_prefix value list_prefix
    then split (cut_prefix value list_prefix) bar
    else split value ","

unfoldable pub parse_string_slice : Value → Option (List String)
unfolding split_text each as_text items
parse_string_slice (Value.texts value) = some value
parse_string_slice (Value.array value) = each as_text (items value)
parse_string_slice (Value.text value) = some (split_text value)
parse_string_slice v = some []

unfoldable pub parse_int_slice : Value → Option (List ℤ)
unfolding each as_int items
parse_int_slice (Value.ints value) = some value
parse_int_slice (Value.array value) = each as_int (items value)
parse_int_slice v = some []

-- An endpoint that is named is enabled, whatever its value; a base path of another type is a panic.
unfoldable pub endpoint : Value → Option ApiEndpoint
unfolding as_object as_text load
endpoint v =
    let enabled = record no_endpoint { enable = true } in
    elim (load "basepath" (or_else (as_object v) [])) [
      | none ↦ some enabled
      | some Value.nil ↦ some enabled
      | some path ↦ as_text path >>= λ s. some (record enabled { base_path = s })
    ]

unfoldable pub api_entry : String → Value → Api → Option Api
unfolding endpoint
api_entry k v a =
    if k == "prometheus"
    then (endpoint v >>= λ e. some (record a { prometheus = e }))
    else if k == "souin"
    then (endpoint v >>= λ e. some (record a { souin = e }))
    else some a

unfoldable pub parse_api : Entries Value → Option Api
unfolding range_entries api_entry
parse_api m = range_entries api_entry m no_api

module _ (to_bool : Value → Bool) where
  -- configCacheKey: of the flags only `hash` is set whatever its value is.
  unfoldable pub key_entry : String → Value → KeyConfig → Option KeyConfig
  unfolding parse_string_slice as_text
  key_entry k v key =
      if k == "disable_body"
      then some (record key { disable_body = to_bool v })
      else if k == "disable_host"
      then some (record key { disable_host = to_bool v })
      else if k == "disable_method"
      then some (record key { disable_method = to_bool v })
      else if k == "disable_query"
      then some (record key { disable_query = to_bool v })
      else if k == "sort_query"
      then some (record key { sort_query = to_bool v })
      else if k == "disable_scheme"
      then some (record key { disable_scheme = to_bool v })
      else if k == "disable_vary"
      then some (record key { disable_vary = to_bool v })
      else if k == "hash"
      then some (record key { hash = true })
      else if k == "headers"
      then (parse_string_slice v >>= λ hs. some (record key { headers = hs }))
      else if k == "hide"
      then some (record key { hide = to_bool v })
      else if k == "template"
      then (as_text v >>= λ s. some (record key { template = s }))
      else some key

  unfoldable pub config_cache_key : Value → Option KeyConfig
  unfolding as_object range_entries key_entry
  config_cache_key v = as_object v >>= λ m. range_entries key_entry m no_key

  unfoldable pub parse_cache_keys : (String → Bool) → Entries Value → Option CacheKeys
  unfolding config_cache_key
  parse_cache_keys compiles [] = some []
  parse_cache_keys compiles ((k, v) ∷ m) =
      let later = parse_cache_keys compiles m in
      let here = config_cache_key v in
      if compiles k
      then (here >>= λ key. later >>= λ cache_keys. some ((k, key) ∷ cache_keys))
      else none

  unfoldable pub cdn_entry : String → Value → Cdn → Option Cdn
  unfolding as_text
  cdn_entry k v c =
      if k == "api_key"
      then (as_text v >>= λ s. some (record c { api_key = s }))
      else if k == "dynamic"
      then some (record c { dynamic = to_bool v })
      else if k == "email"
      then (as_text v >>= λ s. some (record c { email = s }))
      else if k == "hostname"
      then (as_text v >>= λ s. some (record c { hostname = s }))
      else if k == "network"
      then (as_text v >>= λ s. some (record c { network = s }))
      else if k == "provider"
      then (as_text v >>= λ s. some (record c { provider = s }))
      else if k == "service_id"
      then (as_text v >>= λ s. some (record c { service_id = s }))
      else if k == "strategy"
      then (as_text v >>= λ s. some (record c { strategy = s }))
      else if k == "zone_id"
      then (as_text v >>= λ s. some (record c { zone_id = s }))
      else some c

  unfoldable pub parse_cdn : Value → Option Cdn
  unfolding as_object range_entries cdn_entry
  parse_cdn v = as_object v >>= λ m. range_entries cdn_entry m (record no_cdn { dynamic = true })
