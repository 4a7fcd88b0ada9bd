-- ===== src/Caddy/Parser/Ends.antt =====
-- The parser of a Caddyfile ends: parseConfiguration.
use souin.Prelude.{
  ℕ, zero, suc, ◌<◌, ◌≤◌, String, ◌≢◌, Bool, Option, none, some, List, Bool-cases, inl, inr, arith,
}
use souin.Prelude.Int.{ℤ}
use souin.Text.{◌<>◌, join}
use souin.Text.Numbers.{parse_uint}
use souin.Caddy.{Configuration}
use souin.Caddy.Dispenser.{
  Dispenser, Parsed, ok, err, panic, out_of_fuel, P, ◌>>=◌, pure, fail, block,
}
use souin.Caddy.Dispenser.Ends.{
  Counts, ends, Fine, Fine-weak, Fine-then, Ends, Ends-pure, Ends-fail, Ends-bind, first_of-Ends,
}
use souin.Caddy.Parser.Lines.{
  block_all-Ends, api_line-Ends, key_line-Ends, cache_keys_line-Ends, cdn_line-Ends, provider-Ends,
  regex_line-Ends, timeout_line-Ends,
}
use souin.Caddy.Parser.Root.{
  block_option, max_body, mode, root_line, segments, parse_configuration, set_dc,
}

module _ {D : Type 0} (h : Dispenser D) (rank : D → ℕ) (counts : Counts h rank)
    (parse_duration : String → Option ℤ) (parse_float : String → String) (compiles : String → Bool)
    (b : ℕ) where
  block_option-Ends :
      (is_global : Bool) (option : String) (cfg : Configuration)
      → Ends rank
          (suc b)
          (block_option h parse_duration parse_float compiles (suc b) is_global option cfg)
  unfolding block_option
  block_option-Ends is_global option cfg =
      search
        (
          ends, block_all-Ends, api_line-Ends, key_line-Ends, cache_keys_line-Ends, cdn_line-Ends,
          provider-Ends, regex_line-Ends, timeout_line-Ends,
        )
        depth 60

  max_body-Ends :
      (words : List String) (cfg : Configuration)
      → Ends rank (suc b) (max_body h parse_duration parse_float compiles (suc b) words cfg)
  unfolding max_body
  max_body-Ends words cfg =
      Ends-bind rank (suc b) _ _ (first_of-Ends rank h counts (suc b) words)
        (λ a. by_number (parse_uint 64 a))
    where
      by_number :
          (o : Option ℕ)
          → Ends rank (suc b) (elim o as (λ _. P D Configuration) [
            | none ↦ fail ("unsupported max_cacheable_body_bytes: [" <> (join words " " <> "]"))
            | some n ↦ pure (set_dc cfg (record cfg.default_cache { max_body_bytes = n }))
          ])
      by_number none = Ends-fail rank _ (suc b) _
      by_number (some n) = Ends-pure rank (suc b) _

  mode-Ends :
      (words : List String) (cfg : Configuration)
      → Ends rank (suc b) (mode h parse_duration parse_float compiles (suc b) words cfg)
  unfolding mode
  mode-Ends words cfg = search (ends) depth 60

  root_line-Ends :
      (is_global : Bool) (option : String) (cfg : Configuration)
      → Ends rank
          (suc b)
          (root_line h parse_duration parse_float compiles (suc b) is_global option cfg)
  unfolding root_line
  root_line-Ends is_global option cfg =
      search (ends, block_option-Ends, max_body-Ends, mode-Ends) depth 60

  segments-Fine :
      (is_global : Bool) (rest : ℕ) (cfg : Configuration) (d : D)
      → rank d < rest
      → rank d < suc b
      → Fine rank
          (rank d)
          (segments h parse_duration parse_float compiles (suc b) is_global rest cfg d)
  unfolding segments ◌>>=◌
  segments-Fine is_global zero cfg d lt less = absurd (omega arith)
  segments-Fine is_global (suc rest) cfg d lt less =
      let d' = (h.next d).1 in
      elim (Bool-cases (h.next d).0) [
        | inl more ↦
            let falls = counts.next_falls d more in
            let lines =
              block_all-Ends h rank counts b
                (root_line h parse_duration parse_float compiles (suc b) is_global)
                (root_line-Ends is_global) cfg in
            rw more (
              Fine-weak rank (rank d') (rank d) _ (omega arith) (
                Fine-then rank (rank d')
                  (block h (root_line h parse_duration parse_float compiles (suc b) is_global)
                    (suc b) cfg d')
                  (λ cfg'.
                    segments h parse_duration parse_float compiles (suc b) is_global rest cfg')
                  (lines.run d' (omega arith))
                  (λ cfg' d'' le.
                    segments-Fine is_global rest cfg' d'' (omega arith) (omega arith))))
        | inr over ↦ rw over (counts.next_keeps d)
      ]

  -- parseConfiguration ends: with more fuel than there are tokens, no loop runs out of it, so that
  -- the result is a configuration, an error, or the panic of a missing argument.
  pub parse_configuration-Ends :
      (is_global : Bool) (cfg : Configuration) (d : D)
      → rank d ≤ b
      → parse_configuration h parse_duration parse_float compiles (suc b) is_global cfg d
        ≢ out_of_fuel
  unfolding parse_configuration
  parse_configuration-Ends is_global cfg d le e =
      not_fine (segments h parse_duration parse_float compiles (suc b) is_global (suc b) cfg d)
        (segments-Fine is_global (suc b) cfg d (omega arith) (omega arith)) e
    where
      not_fine : (r : Parsed (Configuration × D)) → Fine rank (rank d) r → r ≢ out_of_fuel
      not_fine (ok a) f same = absurd (cc)
      not_fine (err a) f same = absurd (cc)
      not_fine panic f same = absurd (cc)
      not_fine out_of_fuel f same = f
