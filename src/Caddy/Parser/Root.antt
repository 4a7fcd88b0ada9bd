-- ===== src/Caddy/Parser/Root.antt =====
-- plugins/caddy/configuration.go: parseConfiguration. Where the code returns an error it has written
-- a part of the configuration; the model keeps the error alone.
use souin.Prelude.{
  ℕ, zero, suc, String, Bool, true, false, not, Option, none, some, List, [], ◌∷◌, ◌++◌, ◌==◌,
  length, ltb, or_else, if◌then◌else◌,
}
use souin.Prelude.Int.{ℤ, pos}
use souin.Text.{◌<>◌, join}
use souin.Text.Numbers.{atoi, parse_uint}
use souin.Entries.{Entries}
use souin.Configuration.{no_key, no_cdn, no_api}
use souin.Configuration.Dynamic.{Value, fields_of}
use souin.Caddy.{DefaultCache, Configuration, append_headers}
use souin.Caddy.Dispenser.{
  Dispenser, Parsed, ok, out_of_fuel, P, ◌>>=◌, pure, fail, args, first_of, block,
}
use souin.Caddy.Storages.{
  parse_badger_configuration, parse_redis_configuration, parse_simplefs_configuration,
}
use souin.Caddy.Parser.{
  with_arg, api_line, key_line, cache_keys_line, cdn_line, provider, regex_line, timeout_line,
  as_read,
}

-- The codes among the arguments that are numbers.
unfoldable pub status_codes : List String → List ℤ
unfolding atoi
status_codes [] = []
status_codes (a ∷ words) =
    let rest = status_codes words in elim (atoi a) [ none ↦ rest | some c ↦ c ∷ rest ]

abbrev pub set_dc : Configuration → DefaultCache → Configuration
set_dc cfg dc = record cfg { default_cache = dc }

module _ {D : Type 0} (h : Dispenser D) (parse_duration : String → Option ℤ)
    (parse_float : String → String) (compiles : String → Bool) (fuel : ℕ) where
  -- The storages that change what they read.
  unfoldable pub badger_configuration : Entries Value → Option Value
  unfolding parse_badger_configuration
  badger_configuration m = elim (parse_badger_configuration parse_duration parse_float m) [
    | none ↦ none
    | some c ↦ some (Value.object (fields_of c))
  ]

  unfoldable pub redis_configuration : Entries Value → Option Value
  redis_configuration m =
      elim (parse_redis_configuration parse_duration parse_float (fields_of m)) [
        | none ↦ none
        | some c ↦ some (Value.object c)
      ]

  unfoldable pub simplefs_configuration : Entries Value → Option Value
  unfolding parse_simplefs_configuration
  simplefs_configuration m = elim (parse_simplefs_configuration m) [
    | none ↦ none
    | some c ↦ some (Value.object (fields_of c))
  ]

  -- The options whose value is a block.
  unfoldable pub block_option : Bool → String → Configuration → P D Configuration
  unfolding block api_line key_line cache_keys_line cdn_line provider regex_line timeout_line
      badger_configuration redis_configuration simplefs_configuration
  block_option is_global option cfg =
      let dc = cfg.default_cache in
      if option == "api"
      then (if not is_global
          then fail "'api' block must be global"
          else (block h (api_line h fuel) fuel no_api >>= λ a. pure (record cfg { api = a })))
      else if option == "badger"
      then (provider h fuel "badger" false true badger_configuration >>= λ p.
          pure (set_dc cfg (record dc { badger = p })))
      else if option == "cache_keys"
      then (block h (cache_keys_line h compiles fuel) fuel cfg.cache_keys >>= λ keys.
          pure (record cfg { cache_keys = keys }))
      else if option == "cdn"
      then (block h (cdn_line h) fuel (record no_cdn { dynamic = true }) >>= λ c.
          pure (set_dc cfg (record dc { cdn = c })))
      else if option == "etcd"
      then (provider h fuel "etcd" false false as_read >>= λ p.
          pure (set_dc cfg (record dc { distributed = true; etcd = p })))
      else if option == "key"
      then (block h (key_line h "key") fuel no_key >>= λ k.
          pure (set_dc cfg (record dc { key = k })))
      else if option == "nats"
      then (provider h fuel "nats" true false as_read >>= λ p.
          pure (set_dc cfg (record dc { nats = p })))
      else if option == "nuts"
      then (provider h fuel "nuts" true true as_read >>= λ p.
          pure (set_dc cfg (record dc { nuts = p })))
      else if option == "otter"
      then (provider h fuel "otter" false false as_read >>= λ p.
          pure (set_dc cfg (record dc { otter = p })))
      else if option == "olric"
      then (provider h fuel "olric" true true as_read >>= λ p.
          pure (set_dc cfg (record dc { distributed = true; olric = p })))
      else if option == "redis"
      then (provider h fuel "redis" true true redis_configuration >>= λ p.
          pure (set_dc cfg (record dc { distributed = true; redis = p })))
      else if option == "regex"
      then (block h (regex_line h) fuel dc.exclude >>= λ x.
          pure (set_dc cfg (record dc { exclude = x })))
      else if option == "simplefs"
      then (provider h fuel "simplefs" false true simplefs_configuration >>= λ p.
          pure (set_dc cfg (record dc { simplefs = p })))
      else if option == "timeout"
      then (block h (timeout_line h parse_duration) fuel (record { backend = pos 0; cache = pos 0 })
          >>= λ t. pure (set_dc cfg (record dc { timeout = t })))
      else fail ("unsupported root directive: " <> option)

  -- h.Errf where max_cacheable_body_bytes is no number, and where `mode` has more than one value.
  unfoldable pub max_body : List String → Configuration → P D Configuration
  unfolding join parse_uint
  max_body words cfg = first_of h words >>= λ a. elim (parse_uint 64 a) [
    | none ↦ fail ("unsupported max_cacheable_body_bytes: [" <> (join words " " <> "]"))
    | some n ↦ pure (set_dc cfg (record cfg.default_cache { max_body_bytes = n }))
  ]

  unfoldable pub mode : List String → Configuration → P D Configuration
  unfolding join
  mode words cfg =
      if ltb 1 (length words)
      then fail ("mode must contains only one arg: [" <> (join words " " <> "] given"))
      else (first_of h words >>= λ a. pure (set_dc cfg (record cfg.default_cache { mode = a })))

  -- The switch of parseConfiguration.
  unfoldable pub root_line : Bool → String → Configuration → P D Configuration
  unfolding block_option status_codes append_headers max_body mode join
  root_line is_global option cfg =
      let dc = cfg.default_cache in
      if option == "allowed_http_verbs"
      then (args h >>= λ words.
          pure (set_dc cfg (record dc { allowed_http_verbs = dc.allowed_http_verbs ++ words })))
      else if option == "allowed_additional_status_codes"
      then (args h >>= λ words. pure (
          set_dc cfg (record dc {
            allowed_additional_status_codes =
                dc.allowed_additional_status_codes ++ status_codes words;
          })))
      else if option == "cache_name"
      then with_arg h (λ a. set_dc cfg (record dc { cache_name = a }))
      else if option == "default_cache_control"
      then (args h >>= λ words.
          pure (set_dc cfg (record dc { default_cache_control = join words " " })))
      else if option == "max_cacheable_body_bytes"
      then (args h >>= λ words. max_body words cfg)
      else if option == "headers"
      then (args h >>= λ words.
          pure (set_dc cfg (record dc { headers = append_headers dc.headers words })))
      else if option == "log_level"
      then with_arg h (λ a. record cfg { log_level = a })
      else if option == "mode"
      then (args h >>= λ words. mode words cfg)
      else if option == "stale"
      then with_arg h (λ a. set_dc cfg (record dc { stale = or_else (parse_duration a) dc.stale }))
      else if option == "storers"
      then (args h >>= λ words. pure (set_dc cfg (record dc { storers = words })))
      else if option == "ttl"
      then with_arg h (λ a. set_dc cfg (record dc { ttl = or_else (parse_duration a) dc.ttl }))
      else if option == "disable_coalescing"
      then pure (set_dc cfg (record dc { disable_coalescing = true }))
      else if option == "mapping_eviction_interval"
      then with_arg h (λ a. set_dc cfg (record dc {
        mapping_eviction_interval = or_else (parse_duration a) dc.mapping_eviction_interval;
      }))
      else if option == "disable_surrogate_key"
      then pure (record cfg { surrogate_key_disabled = true })
      else block_option is_global option cfg

  -- for h.Next() { … }, with fuel for its rounds.
  unfoldable pub segments : Bool → ℕ → Configuration → P D Configuration
  unfolding block root_line
  segments is_global zero cfg d = out_of_fuel
  segments is_global (suc rest) cfg d =
      let (more, d') = h.next d in
      let round : Parsed (Configuration × D) =
        ◌>>=◌ (block h (root_line is_global) fuel cfg) (λ cfg'. segments is_global rest cfg') d' in
      if more then round else ok (cfg, d')

  unfoldable pub parse_configuration : Bool → Configuration → P D Configuration
  unfolding segments
  parse_configuration is_global cfg = segments is_global fuel cfg
