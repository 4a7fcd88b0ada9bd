-- ===== src/Caddy/Parser.antt =====
-- plugins/caddy/configuration.go: the lines of the blocks inside parseConfiguration. The dispenser of
-- Caddy, time.ParseDuration, strconv.ParseFloat and the compiler of regular expressions are arguments.
pub mod Root
pub mod Lines
pub mod Ends
pub mod Laws
use souin.Prelude.{
  ℕ, String, Bool, true, false, not, Option, none, some, List, [], ◌∷◌, ◌++◌, ◌==◌, or_else,
  if◌then◌else◌,
}
use souin.Prelude.Int.{ℤ, pos}
use souin.Text.{◌<>◌}
use souin.Text.Numbers.{bool_value}
use souin.Entries.{Entries}
use souin.Context.Key.{KeyConfig}
use souin.Configuration.{
  CacheProvider, Timeout, Cdn, ApiEndpoint, Api, CacheKeys, no_provider, no_key, no_cdn,
  no_endpoint, no_api,
}
use souin.Configuration.Dynamic.{Value, fields_of}
use souin.Caddy.Dispenser.{
  Dispenser, Parsed, ok, panic, P, ◌>>=◌, pure, fail, args, first_of, arg, block,
  parse_caddyfile_recursively,
}

unfoldable pub of_option : {D A : Type 0} → Option A → P D A
of_option none d = panic
of_option (some a) d = ok (a, d)

-- h.Errf("unsupported … directive: %s", directive)
abbrev pub unsupported : {D A : Type 0} → String → String → P D A
unsupported name directive = fail ("unsupported " <> (name <> (" directive: " <> directive)))

module _ {D : Type 0} (h : Dispenser D) where
  -- A line with one argument.
  abbrev pub with_arg : {R : Type 0} → (String → R) → P D R
  with_arg set = arg h >>= λ a. pure (set a)

  unfoldable pub endpoint_line : String → String → ApiEndpoint → P D ApiEndpoint
  endpoint_line name directive e =
      if directive == "basepath"
      then with_arg (λ a. record e { base_path = a })
      else unsupported name directive

  -- An endpoint of the API, from its block.
  unfoldable pub endpoint : ℕ → String → P D ApiEndpoint
  unfolding block endpoint_line
  endpoint fuel name = block h (endpoint_line name) fuel (record no_endpoint { enable = true })

  unfoldable pub api_line : ℕ → String → Api → P D Api
  unfolding endpoint
  api_line fuel directive a =
      if directive == "basepath"
      then with_arg (λ s. record a { base_path = s })
      else if directive == "debug"
      then (endpoint fuel "debug" >>= λ e. pure (record a { debug = e }))
      else if directive == "prometheus"
      then (endpoint fuel "prometheus" >>= λ e. pure (record a { prometheus = e }))
      else if directive == "souin"
      then (endpoint fuel "souin" >>= λ e. pure (record a { souin = e }))
      else unsupported "api" directive

  unfoldable pub key_line : String → String → KeyConfig → P D KeyConfig
  key_line name directive ck =
      if directive == "disable_body"
      then pure (record ck { disable_body = true })
      else if directive == "disable_host"
      then pure (record ck { disable_host = true })
      else if directive == "disable_method"
      then pure (record ck { disable_method = true })
      else if directive == "disable_query"
      then pure (record ck { disable_query = true })
      else if directive == "sort_query"
      then pure (record ck { sort_query = true })
      else if directive == "disable_scheme"
      then pure (record ck { disable_scheme = true })
      else if directive == "disable_vary"
      then pure (record ck { disable_vary = true })
      else if directive == "template"
      then with_arg (λ a. record ck { template = a })
      else if directive == "hash"
      then pure (record ck { hash = true })
      else if directive == "hide"
      then pure (record ck { hide = true })
      else if directive == "headers"
      then (args h >>= λ words. pure (record ck { headers = words }))
      else unsupported name directive

  -- One rule of `cache_keys`, under its pattern.
  unfoldable pub cache_keys_line : (String → Bool) → ℕ → String → CacheKeys → P D CacheKeys
  unfolding block key_line
  cache_keys_line compiles fuel rg keys =
      block h (key_line ("cache_keys (" <> (rg <> ")"))) fuel no_key >>= λ ck.
      of_option (if compiles rg then some (keys ++ ((rg, ck) ∷ [])) else none)

  -- `dynamic` may stand alone.
  unfoldable pub dynamic_of : List String → Bool
  unfolding bool_value
  dynamic_of [] = true
  dynamic_of (a ∷ words) = bool_value a

  unfoldable pub cdn_line : String → Cdn → P D Cdn
  unfolding dynamic_of
  cdn_line directive c =
      if directive == "api_key"
      then with_arg (λ a. record c { api_key = a })
      else if directive == "dynamic"
      then (args h >>= λ words. pure (record c { dynamic = dynamic_of words }))
      else if directive == "email"
      then with_arg (λ a. record c { email = a })
      else if directive == "hostname"
      then with_arg (λ a. record c { hostname = a })
      else if directive == "network"
      then with_arg (λ a. record c { network = a })
      else if directive == "provider"
      then with_arg (λ a. record c { provider = a })
      else if directive == "service_id"
      then with_arg (λ a. record c { service_id = a })
      else if directive == "strategy"
      then with_arg (λ a. record c { strategy = a })
      else if directive == "zone_id"
      then with_arg (λ a. record c { zone_id = a })
      else unsupported "cdn" directive

  -- A line of a storage's block: which of `url` and `path` it takes, and what is made of its
  -- configuration, differ by the storage.
  unfoldable pub provider_line :
      ℕ
      → String
      → Bool
      → Bool
      → (Entries Value → Option Value)
      → String
      → CacheProvider
      → P D CacheProvider
  unfolding parse_caddyfile_recursively
  provider_line fuel name reads_url reads_path configure directive p =
      if directive == "url"
      then (if reads_url then with_arg (λ a. record p { url = a }) else unsupported name directive)
      else if directive == "path"
      then (if reads_path
          then with_arg (λ a. record p { path = a })
          else unsupported name directive)
      else if directive == "configuration"
      then (parse_caddyfile_recursively h fuel fuel >>= λ m.
          of_option (configure m) >>= λ c. pure (record p { configuration = c }))
      else unsupported name directive

  unfoldable pub provider :
      ℕ → String → Bool → Bool → (Entries Value → Option Value) → P D CacheProvider
  unfolding block provider_line
  provider fuel name reads_url reads_path configure =
      block h (provider_line fuel name reads_url reads_path configure) fuel
        (record no_provider { found = true })

  unfoldable pub regex_line : String → String → P D String
  regex_line directive exclude =
      if directive == "exclude" then arg h else unsupported "regex" directive

  unfoldable pub timeout_line : (String → Option ℤ) → String → Timeout → P D Timeout
  timeout_line parse_duration directive t =
      if directive == "backend"
      then with_arg (λ a. record t { backend = or_else (parse_duration a) (pos 0) })
      else if directive == "cache"
      then with_arg (λ a. record t { cache = or_else (parse_duration a) (pos 0) })
      else unsupported "timeout" directive

-- A configuration that is kept as it was read.
abbrev pub as_read : Entries Value → Option Value
as_read m = some (Value.object (fields_of m))
