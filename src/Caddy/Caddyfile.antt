-- ===== src/Caddy/Caddyfile.antt =====
-- plugins/caddy/httpcache.go: what Caddy calls on the tokens of a Caddyfile, for a handler and for the
-- global block. The code returns the app beside an error; the model keeps the error alone.
use souin.Prelude.{ℕ, String, Bool, true, false, Option}
use souin.Prelude.Int.{ℤ}
use souin.Caddy.{Configuration, no_configuration}
use souin.Caddy.Dispenser.{Dispenser, P, ◌>>=◌, pure}
use souin.Caddy.Parser.Root.{parse_configuration}
use souin.Caddy.Handler.{SouinApp, global_default, app_of}

module _ {D : Type 0} (h : Dispenser D) (parse_duration : String → Option ℤ)
    (parse_float : String → String) (compiles : String → Bool) (fuel : ℕ) where
  -- UnmarshalCaddyfile
  unfoldable pub unmarshal_caddyfile : P D Configuration
  unfolding parse_configuration
  unmarshal_caddyfile =
      parse_configuration h parse_duration parse_float compiles fuel false no_configuration

  unfoldable pub parse_caddyfile_global_option : P D SouinApp
  unfolding parse_configuration app_of ◌>>=◌ pure
  parse_caddyfile_global_option =
      parse_configuration h parse_duration parse_float compiles fuel true global_default >>= λ cfg.
      pure (app_of cfg)
