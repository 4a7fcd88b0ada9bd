-- ===== src/Configuration/Kratos.antt =====
-- plugins/kratos/configuration.go: the blocks of a configuration. config.Value of kratos and
-- time.ParseDuration are arguments; where the code calls a method of a nil value, `none` is the panic.
pub mod Parser
pub mod Laws
use souin.Prelude.{
  ℕ, zero, suc, String, Bool, true, false, Option, none, some, List, [], ◌∷◌, ◌==◌, ◌>>=◌, is_some,
  or_else, if◌then◌else◌, map,
}
use souin.Prelude.Int.{ℤ, pos}
use souin.Entries.{Entries, load, store}
use souin.Context.Key.{KeyConfig}
use souin.Configuration.{
  CacheProvider, Timeout, Cdn, ApiEndpoint, Api, CacheKeys, no_provider, no_key, no_cdn,
  no_endpoint, no_api,
}
use souin.Configuration.Dynamic.{Value, fields_of, range_entries}

-- The type of value.Load(), as far as it matters.
pub data Loaded : Type 0 where
  integer : Loaded
  uint64 : ℕ → Loaded
  floating : Loaded
  other : Loaded

-- The methods of config.Value; `none` is an error.
pub record KratosValue (V : Type 0) : Type 0 where
  pub bool : V → Option Bool
  pub int : V → Option ℤ
  pub float : V → Option String
  pub string : V → Option String
  pub map : V → Option (Entries V)
  pub slice : V → Option (List V)
  pub load : V → Loaded

module _ {V : Type 0} (kratos : KratosValue V) where
  abbrev pub string_or_empty : V → String
  string_or_empty v = or_else (kratos.string v) ""

  abbrev pub map_or_empty : V → Entries V
  map_or_empty v = or_else (kratos.map v) []

  abbrev pub strings : V → List String
  strings v = map string_or_empty (or_else (kratos.slice v) [])

  -- parseAPI: a block that is no map is as if it were not there.
  unfoldable pub endpoint : Option (Entries V) → ApiEndpoint
  unfolding load
  endpoint none = no_endpoint
  endpoint (some m) = record no_endpoint {
    enable = true;
    base_path = elim (load "basepath" m) [ none ↦ "" | some v ↦ string_or_empty v ];
  }

  unfoldable pub api_entry : String → V → Api → Option Api
  unfolding endpoint
  api_entry k v a =
      if k == "debug"
      then some (record a { debug = endpoint (kratos.map v) })
      else if k == "prometheus"
      then some (record a { prometheus = endpoint (kratos.map v) })
      else if k == "souin"
      then some (record a { souin = endpoint (kratos.map v) })
      else some a

  unfoldable pub parse_api : Entries V → Option Api
  unfolding range_entries api_entry
  parse_api m = range_entries api_entry m no_api

  unfoldable pub key_entry : String → V → KeyConfig → Option KeyConfig
  key_entry k v ck =
      if k == "disable_body"
      then some (record ck { disable_body = true })
      else if k == "disable_host"
      then some (record ck { disable_host = true })
      else if k == "disable_method"
      then some (record ck { disable_method = true })
      else if k == "disable_query"
      then some (record ck { disable_query = true })
      else if k == "sort_query"
      then some (record ck { sort_query = true })
      else if k == "disable_scheme"
      then some (record ck { disable_scheme = true })
      else if k == "disable_vary"
      then some (record ck { disable_vary = true })
      else if k == "hash"
      then some (record ck { hash = true })
      else if k == "hide"
      then some (record ck { hide = true })
      else if k == "headers"
      then some (record ck { headers = strings v })
      else if k == "template"
      then some (record ck { template = string_or_empty v })
      else some ck

  unfoldable pub parse_cache_keys : (String → Bool) → Entries V → Option CacheKeys
  unfolding range_entries key_entry
  parse_cache_keys compiles [] = some []
  parse_cache_keys compiles ((k, v) ∷ m) = do
    ck ← range_entries key_entry (map_or_empty v) no_key
    cache_keys ← (if compiles k then parse_cache_keys compiles m else none)
    some ((k, ck) ∷ cache_keys)

  unfoldable pub cdn_entry : String → V → Cdn → Option Cdn
  cdn_entry k v c =
      if k == "api_key"
      then some (record c { api_key = string_or_empty v })
      else if k == "dynamic"
      then some (record c { dynamic = or_else (kratos.bool v) false })
      else if k == "email"
      then some (record c { email = string_or_empty v })
      else if k == "hostname"
      then some (record c { hostname = string_or_empty v })
      else if k == "network"
      then some (record c { network = string_or_empty v })
      else if k == "provider"
      then some (record c { provider = string_or_empty v })
      else if k == "service_id"
      then some (record c { service_id = string_or_empty v })
      else if k == "strategy"
      then some (record c { strategy = string_or_empty v })
      else if k == "zone_id"
      then some (record c { zone_id = string_or_empty v })
      else some c

  unfoldable pub parse_cdn : V → Option Cdn
  unfolding range_entries cdn_entry
  parse_cdn v = range_entries cdn_entry (map_or_empty v) (record no_cdn { dynamic = true })

module _ {V : Type 0} (kratos : KratosValue V) (parse_duration : String → Option ℤ) where
  -- What parseRecursively keeps of a value that is neither a map nor dropped.
  unfoldable pub scalar : V → Option Value
  scalar v =
      let number : Option Value = elim (kratos.load v) [
        | Loaded.integer ↦ (kratos.int v >>= λ n. some (Value.int n))
        | Loaded.uint64 _ ↦ (kratos.int v >>= λ n. some (Value.int n))
        | Loaded.floating ↦ (kratos.float v >>= λ x. some (Value.float x))
        | Loaded.other ↦ none
      ] in
      let duration : Option Value =
        parse_duration (string_or_empty kratos v) >>= λ d. some (Value.duration d) in
      elim (kratos.bool v) [
        | some b ↦ some (Value.bool b)
        | none ↦ elim number [ some n ↦ some n | none ↦ duration ]
      ]

  -- parseRecursively, with fuel for the depth of the maps: `none` is that it ran out.
  unfoldable pub parse_recursively : ℕ → Entries V → Option (Entries Value)
  unfolding scalar
  parse_recursively zero m = none
  parse_recursively (suc fuel) [] = some []
  parse_recursively (suc fuel) ((k, v) ∷ m) =
      let nested : Option (Entries Value) = elim (kratos.map v) [
        | none ↦ some []
        | some block ↦
            (parse_recursively fuel block >>= λ fields.
            some ((k, Value.object (fields_of fields)) ∷ []))
      ] in
      let here : Option (Entries Value) = elim (scalar v) [
        | some s ↦ some ((k, s) ∷ [])
        | none ↦ nested
      ] in
      here >>= λ entry.
      parse_recursively (suc fuel) m >>= λ rest. some (elim entry [ [] ↦ rest | e ∷ _ ↦ e ∷ rest ])

  -- The blocks of the storages differ in the keys that they read.
  unfoldable pub provider_entry :
      ℕ → Bool → Bool → String → V → CacheProvider → Option CacheProvider
  unfolding parse_recursively
  provider_entry fuel reads_url reads_path k v p =
      if k == "url"
      then some (if reads_url then record p { url = string_or_empty kratos v } else p)
      else if k == "path"
      then some (if reads_path then record p { path = string_or_empty kratos v } else p)
      else if k == "configuration"
      then elim (kratos.map v) [
        | none ↦ some p
        | some m ↦
            (parse_recursively fuel m >>= λ c.
            some (record p { configuration = Value.object (fields_of c) }))
      ]
      else some p

  unfoldable pub parse_provider : ℕ → Bool → Bool → V → Option CacheProvider
  unfolding range_entries provider_entry
  parse_provider fuel reads_url reads_path v =
      range_entries (provider_entry fuel reads_url reads_path) (map_or_empty kratos v) no_provider

  unfoldable pub timeout_entry : String → V → Timeout → Option Timeout
  timeout_entry k v t =
      let d = or_else (kratos.string v >>= parse_duration) (pos 0) in
      if k == "backend"
      then some (record t { backend = d })
      else if k == "cache"
      then some (record t { cache = d })
      else some t

  unfoldable pub parse_timeout : V → Option Timeout
  unfolding range_entries timeout_entry
  parse_timeout v =
      range_entries timeout_entry (map_or_empty kratos v)
        (record { backend = pos 0; cache = pos 0 })
