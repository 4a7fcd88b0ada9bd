-- ===== src/Caddy/Parser/Lines.antt =====
-- The parser of a Caddyfile ends: the lines of the blocks.
use souin.Prelude.{ℕ, suc, String, Bool, true, Option, none, some, arith}
use souin.Prelude.Int.{ℤ}
use souin.Entries.{Entries}
use souin.Context.Key.{KeyConfig}
use souin.Configuration.{CacheProvider, Timeout, Cdn, ApiEndpoint, Api, CacheKeys, no_provider}
use souin.Configuration.Dynamic.{Value}
use souin.Caddy.Dispenser.{Dispenser, P, block, parse_caddyfile_recursively}
use souin.Caddy.Dispenser.Ends.{Counts, ends, Ends, block-Ends, parse_caddyfile_recursively-Ends}
use souin.Caddy.Parser.{
  of_option, endpoint_line, endpoint, api_line, key_line, cache_keys_line, cdn_line, provider_line,
  provider, regex_line, timeout_line,
}

module _ {D : Type 0} (h : Dispenser D) (rank : D → ℕ) (counts : Counts h rank) (b : ℕ) where
  -- A block whose lines end, ends: the fuel exceeds the tokens.
  pub block_all-Ends :
      {R : Type 0} (body : String → R → P D R)
      → ((k : String) (r : R) → Ends rank (suc b) (body k r))
      → (r : R) → Ends rank (suc b) (block h body (suc b) r)
  block_all-Ends body hb r =
      block-Ends rank h counts body b (suc b) (omega arith)
        (λ k r'. record { run = λ d lt. (hb k r').run d (omega arith) }) r

  of_option-Ends : {A : Type 0} (o : Option A) → Ends rank (suc b) (of_option o)
  unfolding of_option
  of_option-Ends none = record { run = λ d lt. tt }
  of_option-Ends (some a) = record { run = λ d lt. omega arith }

  pub endpoint_line-Ends :
      (name directive : String) (e : ApiEndpoint)
      → Ends rank (suc b) (endpoint_line h name directive e)
  unfolding endpoint_line
  endpoint_line-Ends name directive e = search (ends) depth 60

  endpoint-Ends : (name : String) → Ends rank (suc b) (endpoint h (suc b) name)
  unfolding endpoint
  endpoint-Ends name = block_all-Ends (endpoint_line h name) (endpoint_line-Ends name) _

  pub api_line-Ends :
      (directive : String) (a : Api) → Ends rank (suc b) (api_line h (suc b) directive a)
  unfolding api_line
  api_line-Ends directive a = search (ends, endpoint-Ends) depth 60

  pub key_line-Ends :
      (name directive : String) (ck : KeyConfig) → Ends rank (suc b) (key_line h name directive ck)
  unfolding key_line
  key_line-Ends name directive ck = search (ends) depth 60

  pub cache_keys_line-Ends :
      (compiles : String → Bool) (rg : String) (keys : CacheKeys)
      → Ends rank (suc b) (cache_keys_line h compiles (suc b) rg keys)
  unfolding cache_keys_line
  cache_keys_line-Ends compiles rg keys =
      search (ends, of_option-Ends, block_all-Ends, key_line-Ends) depth 60

  pub cdn_line-Ends : (directive : String) (c : Cdn) → Ends rank (suc b) (cdn_line h directive c)
  unfolding cdn_line
  cdn_line-Ends directive c = search (ends) depth 60

  recursively-Ends : Ends rank (suc b) (parse_caddyfile_recursively h (suc b) (suc b))
  recursively-Ends = parse_caddyfile_recursively-Ends rank h counts (suc b) (suc b) (omega arith)

  provider_line-Ends :
      (name : String) (reads_url reads_path : Bool) (configure : Entries Value → Option Value)
      (directive : String) (p : CacheProvider)
      → Ends rank (suc b) (provider_line h (suc b) name reads_url reads_path configure directive p)
  unfolding provider_line
  provider_line-Ends name reads_url reads_path configure directive p =
      search (ends, of_option-Ends, recursively-Ends) depth 60

  pub provider-Ends :
      (name : String) (reads_url reads_path : Bool) (configure : Entries Value → Option Value)
      → Ends rank (suc b) (provider h (suc b) name reads_url reads_path configure)
  unfolding provider
  provider-Ends name reads_url reads_path configure =
      block_all-Ends (provider_line h (suc b) name reads_url reads_path configure)
        (provider_line-Ends name reads_url reads_path configure)
        (record no_provider { found = true })

  pub regex_line-Ends :
      (directive exclude : String) → Ends rank (suc b) (regex_line h directive exclude)
  unfolding regex_line
  regex_line-Ends directive exclude = search (ends) depth 60

  pub timeout_line-Ends :
      (parse_duration : String → Option ℤ) (directive : String) (t : Timeout)
      → Ends rank (suc b) (timeout_line h parse_duration directive t)
  unfolding timeout_line
  timeout_line-Ends parse_duration directive t = search (ends) depth 60
