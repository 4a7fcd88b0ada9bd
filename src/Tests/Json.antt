-- ===== src/Tests/Json.antt =====
-- Rules of the cache keys, as tokens of JSON.
use souin.Prelude.{◌≡◌, refl, true, Option, none, some, List, [], ◌∷◌, arith}
use souin.Context.Key.{KeyConfig}
use souin.Configuration.{CacheKeys, no_key}
use souin.Configuration.Json.{
  Token, text, parse_json, marshal_json, rules_tokens, key_tokens, flag_tokens, template_tokens,
  headers_tokens, text_tokens,
}
use souin.Configuration.Json.Reading.{parse_json-marshal_json, parse_json-headers_none}

abbrev hashing : KeyConfig
hashing = record no_key { hash = true; headers = "Accept" ∷ [] }

abbrev rules : CacheKeys
rules = ("/page", hashing) ∷ []

abbrev the_tokens : Option (List Token) → List Token
the_tokens none = []
the_tokens (some ts) = ts

abbrev written : List Token
written = the_tokens (marshal_json ((".*", no_key) ∷ rules))

parse_json-marshal_json_example : parse_json (λ _. true) 20 written [] ≡ some (some rules)
unfolding marshal_json rules_tokens key_tokens flag_tokens template_tokens headers_tokens
    text_tokens souin.Configuration.Json.is_written souin.Configuration.Json.stands_quoted
    souin.Configuration.Json.is_ascii
parse_json-marshal_json_example =
    parse_json-marshal_json (λ _. true) ".*" rules written 20 refl (omega arith)
      ((refl, refl, ((λ e. absurd (cc)), tt)), tt)

-- The pattern of the README is not written as JSON.
escaped_pattern : marshal_json ((".+\\.css", no_key) ∷ []) ≡ none
unfolding marshal_json souin.Configuration.Json.is_written souin.Configuration.Json.stands_quoted
escaped_pattern = refl

parse_json-headers_none_example :
    parse_json
      (λ _. true)
      1_000
      (text "["
        ∷ text "["
        ∷ text "["
        ∷ text "/page"
        ∷ text "{"
        ∷ text "headers"
        ∷ text "Accept"
        ∷ text "}"
        ∷ [])
      []
    ≡ none
parse_json-headers_none_example =
    parse_json-headers_none (λ _. true) (text "[") (text "[") (text "[") "/page" "Accept"
      (text "}" ∷ []) [] 1_000 refl refl (refl, tt)
