-- ===== src/Tests/Caddy.antt =====
-- Caddyfiles, and handlers with their global block.
use souin.Prelude.{
  ℕ, ◌<◌, ◌≤◌, String, ◌≡◌, ◌≢◌, refl, Bool, true, false, Option, none, some, List, [], ◌∷◌, ◌==◌,
  length, if◌then◌else◌, arith,
}
use souin.Prelude.Int.{ℤ, pos, eqb_ℤ}
use souin.Configuration.{Api, no_api, no_key}
use souin.Caddy.{Configuration, no_default_cache, no_configuration}
use souin.Caddy.Dispenser.{Dispenser, out_of_fuel, ◌>>=◌, pure, args, rounds, block}
use souin.Caddy.Dispenser.Ends.{Counts}
use souin.Caddy.Parser.Root.{root_line, segments, parse_configuration}
use souin.Caddy.Parser.Ends.{parse_configuration-Ends}
use souin.Caddy.Parser.Laws.{Kept, parse_configuration-Kept}
use souin.Caddy.Provision.{
  Base, App, Steps, start, provisions, provision, provision_app, with_surrogate_storer, send,
}
use souin.Caddy.Provision.Sharing.{Shares, provision-Shares}
use souin.Caddy.Handler.{SouinApp, SouinCaddyMiddleware, from_app}
use souin.Caddy.Handler.Inheritance.{from_app-durations, from_app-inherits, from_app-sort_query}
use souin.Middleware.Serve.{handle_internally}
use souin.Api.Endpoints.{
  Target, initialize_endpoint, initialize, add_endpoints, generate_handler_map,
}
use souin.Api.Endpoints.Reach.{souin_off-unreached}
use souin.Tests.Data.{request}

-- A dispenser over the lines of a file, the one that is read in front; "}" ends a block.
abbrev Lines : Type 0
Lines = List (List String)

abbrev word : Lines → String
word ((w ∷ ws) ∷ lines) = w
word ([] ∷ lines) = ""
word [] = ""

abbrev words_left : Lines → List String
words_left ((w ∷ ws) ∷ lines) = ws
words_left ([] ∷ lines) = []
words_left [] = []

abbrev next_line : Lines → Bool × Lines
next_line [] = (false, [])
next_line (l ∷ []) = (false, [])
next_line (l ∷ l' ∷ lines) = (true, l' ∷ lines)

abbrev next_in_block : ℕ → Lines → Bool × Lines
next_in_block n lines =
    let (more, rest) = next_line lines in (if word rest == "}" then false else more, rest)

abbrev dispenser : Dispenser Lines
dispenser = record {
  next = next_line;
  next_block = next_in_block;
  val = word;
  remaining_args = λ lines. (words_left lines, lines);
  nesting = λ _. 0;
}

next_line-falls : (d : Lines) → (next_line d).0 ≡ true → length (next_line d).1 < length d
next_line-falls [] e = absurd (cc)
next_line-falls (l ∷ []) e = absurd (cc)
next_line-falls (l ∷ l' ∷ lines) e = omega arith

next_line-keeps : (d : Lines) → length (next_line d).1 ≤ length d
next_line-keeps [] = omega arith
next_line-keeps (l ∷ []) = omega arith
next_line-keeps (l ∷ l' ∷ lines) = omega arith

dispenser-Counts : Counts dispenser (length {A = List String})
dispenser-Counts = record {
  next_falls = next_line-falls;
  next_keeps = next_line-keeps;
  block_falls = λ n d e. next_line-falls d (ground arith);
  block_keeps = λ n d. next_line-keeps d;
  args_keep = λ d. omega arith;
}

abbrev no_duration : String → Option ℤ
no_duration t = none

abbrev caddyfile : Lines
caddyfile = [] ∷ ("cache" ∷ []) ∷ ("allowed_http_verbs" ∷ "GET" ∷ []) ∷ ("}" ∷ []) ∷ []

parse_configuration-Ends_example :
    parse_configuration dispenser no_duration
      (λ t. t)
      (λ _. true)
      5
      false
      no_configuration
      caddyfile
    ≢ out_of_fuel
parse_configuration-Ends_example =
    parse_configuration-Ends dispenser (length {A = List String}) dispenser-Counts no_duration
      (λ t. t) (λ _. true) 4 false no_configuration caddyfile (omega arith)

abbrev with_verbs : Configuration
with_verbs = record no_configuration {
  default_cache = record no_default_cache { allowed_http_verbs = "GET" ∷ [] };
}

parse_configuration-Kept_example : Kept false no_configuration with_verbs
unfolding parse_configuration segments block rounds root_line ◌>>=◌ pure args
parse_configuration-Kept_example =
    parse_configuration-Kept dispenser no_duration (λ t. t) (λ _. true) 5 false no_configuration
      with_verbs caddyfile [] refl

abbrev handler : SouinCaddyMiddleware
handler = record {
  configuration = record no_configuration {
    default_cache = record no_default_cache { key = record no_key { sort_query = true } };
  };
  rules = [];
  cache_keys = none;
  log_level = "";
  own = no_default_cache;
}

abbrev bare_handler : SouinCaddyMiddleware
bare_handler = record handler { configuration = no_configuration }

abbrev app : SouinApp
app = record {
  default_cache = record no_default_cache {
    mode = "strict";
    ttl = pos 5;
    disable_coalescing = true;
  };
  surrogate_key_disabled = false;
  cache_keys = [];
  api = no_api;
  log_level = "";
}

from_app-durations_example :
    let dc = (from_app bare_handler app).0.configuration.default_cache in
    (eqb_ℤ dc.ttl (pos 0) ≡ false) × (eqb_ℤ dc.mapping_eviction_interval (pos 0) ≡ false)
from_app-durations_example = from_app-durations bare_handler app

from_app-inherits_example :
    (from_app bare_handler app).0.configuration.default_cache
    ≡ record (from_app bare_handler app).1.default_cache { disable_coalescing = false }
from_app-inherits_example = from_app-inherits bare_handler app refl

from_app-sort_query_example : (from_app handler app).0.configuration.default_cache.key ≡ no_key
from_app-sort_query_example = from_app-sort_query handler app true refl

abbrev api : Api
api = record no_api { debug = record no_api.debug { enable = true } }

souin_off-unreached_example :
    handle_internally (("/souin-api/debug/", Target.debug) ∷ []) request
    ≢ some Target.administration
unfolding generate_handler_map initialize initialize_endpoint add_endpoints
souin_off-unreached_example =
    souin_off-unreached api (("/souin-api/debug/", Target.debug) ∷ []) request refl refl

-- Two handlers of one app, numbered.
abbrev first_base : Base ℕ ℕ
first_base = record { storers = 7 ∷ []; surrogate_key_storer = 1 }

abbrev second_base : Base ℕ ℕ
second_base = record { storers = 8 ∷ []; surrogate_key_storer = 2 }

abbrev app_with_first : App String ℕ ℕ
app_with_first = record {
  api = "api";
  storers = 7 ∷ [];
  surrogate_storage = some 1;
  notifier = record { items = record { api = "api"; surrogate_storage = 1 } ∷ []; closed = true };
}

first_provisioned :
    Steps {A = String} {G = ℕ} {X = ℕ} (none, provision_app "api") (some 1, app_with_first)
unfolding provision with_surrogate_storer send provision_app
first_provisioned =
    provisions (none, provision_app "api") (none, provision_app "api") first_base first_base
      (some 1) app_with_first (start (none, provision_app "api")) refl

provision-Shares_example : Shares {A = String} (some 1, app_with_first) second_base
provision-Shares_example =
    provision-Shares "api" (some 1, app_with_first) second_base first_provisioned
