-- ===== src/Configuration/Json.antt =====
-- configurationtypes/types.go: how the rules of the cache keys are read from the tokens of a
-- json.Decoder and written to JSON. The text of the JSON, with its commas and quotes, is not modelled,
-- and the tokens of what MarshalJSON writes are given only where it escapes nothing that it should;
-- the compiler of regular expressions is an argument.
pub mod Keys
pub mod Reading
use Prim.Native.Char.{code}
use Prim.Native.String.{[], ◌∷◌}
use souin.Prelude.{
  all, not, ltb, leb, eqb, ◌&&◌, ℕ, zero, suc, String, Bool, true, false, ◌||◌, Option, none, some,
  List, [], ◌∷◌, ◌++◌, ◌==◌, ◌>>=◌, if◌then◌else◌,
}
use souin.Text.Numbers.{bool_value}
use souin.Context.Key.{KeyConfig}
use souin.Configuration.{CacheKeys, no_key}

-- A token of the decoder: null, or another one as fmt.Sprint prints it.
pub data Token : Type 0 where
  null : Token
  text : String → Token

abbrev pub sprint : Token → String
sprint null = "<nil>"
sprint (text s) = s

-- rootDecoder.Token(), which is nil from the end of the tokens on.
unfoldable pub token : List Token → Token × List Token
token [] = (null, [])
token (t ∷ ts) = (t, ts)

-- A token at which the loop over the directives ends.
abbrev pub ends : Token → Bool
ends null = true
ends (text s) = s == "}"

-- The loop over the headers; `none` is that no "]" comes, so that it never ends.
unfoldable pub read_headers : List Token → Option (List String × List Token)
read_headers [] = none
read_headers (t ∷ ts) =
    let later = read_headers ts in
    if sprint t == "]" then some ([], ts) else (later >>= λ r. some (sprint t ∷ r.0, r.1))

abbrev flag : (Bool → KeyConfig) → List Token → Option (KeyConfig × List Token)
flag set ts = let (val, ts') = token ts in some (set (bool_value (sprint val)), ts')

-- The switch on a directive, with the tokens that it takes.
unfoldable pub directive : String → List Token → KeyConfig → Option (KeyConfig × List Token)
unfolding token bool_value read_headers
directive name ts key =
    let (val, ts') = token ts in
    if name == "disable_body"
    then flag (λ b. record key { disable_body = b }) ts
    else if name == "disable_host"
    then flag (λ b. record key { disable_host = b }) ts
    else if name == "disable_method"
    then flag (λ b. record key { disable_method = b }) ts
    else if name == "disable_query"
    then flag (λ b. record key { disable_query = b }) ts
    else if name == "disable_scheme"
    then flag (λ b. record key { disable_scheme = b }) ts
    else if name == "disable_vary"
    then flag (λ b. record key { disable_vary = b }) ts
    else if name == "sort_query"
    then flag (λ b. record key { sort_query = b }) ts
    else if name == "hash"
    then flag (λ b. record key { hash = b }) ts
    else if name == "hide"
    then flag (λ b. record key { hide = b }) ts
    else if name == "template"
    then some (record key { template = sprint val }, ts')
    else if name == "headers"
    then (if sprint val == "]"
        then some (record key { headers = [] }, ts')
        else (read_headers ts' >>= λ r. some (record key { headers = r.0 }, r.1)))
    else some (key, ts)

-- The loop over the directives of a key, with fuel for its rounds: `none` is that it did not end.
unfoldable pub key_loop : ℕ → List Token → KeyConfig → Option (KeyConfig × List Token)
unfolding directive token
key_loop zero ts key = none
key_loop (suc fuel) ts key =
    let (t, ts') = token ts in
    directive (sprint t) ts' key >>= λ r.
    let later = key_loop fuel r.1 r.0 in if ends t then some r else later

module _ (compiles : String → Bool) where
  -- The loop over the rules. The inner `none` is the panic of a pattern that does not compile.
  unfoldable pub rule_loop : ℕ → List Token → CacheKeys → Option (Option CacheKeys)
  unfolding key_loop
  rule_loop zero ts keys = none
  rule_loop (suc fuel) [] keys = some (some keys)
  rule_loop (suc fuel) (t ∷ ts) keys =
      let later = rule_loop fuel ts keys in
      let rule : Option (Option CacheKeys) = key_loop (suc fuel) ts no_key >>= λ r.
      (let more = rule_loop fuel r.1 (keys ++ (sprint t, r.0) ∷ []) in
        if compiles (sprint t) then more else some none) in
      if ends t then later else rule

  -- parseJSON, which leaves out three tokens first.
  unfoldable pub parse_json : ℕ → List Token → CacheKeys → Option (Option CacheKeys)
  unfolding token rule_loop
  parse_json fuel ts keys = rule_loop fuel (token (token (token ts).1).1).1 keys

-- The tokens of a flag, which json.Marshal leaves out where it is false, before others.
unfoldable pub flag_tokens : String → Bool → List Token → List Token
flag_tokens name false ts = ts
flag_tokens name true ts = text name ∷ text "true" ∷ ts

unfoldable pub template_tokens : String → List Token → List Token
template_tokens template ts = if template == "" then ts else text "template" ∷ text template ∷ ts

unfoldable pub text_tokens : List String → List Token → List Token
text_tokens [] ts = ts
text_tokens (s ∷ ss) ts = text s ∷ text_tokens ss ts

unfoldable pub headers_tokens : List String → List Token → List Token
unfolding text_tokens
headers_tokens [] ts = ts
headers_tokens (h ∷ hs) ts = text "headers" ∷ text "[" ∷ text_tokens (h ∷ hs) (text "]" ∷ ts)

-- json.Marshal of a Key, without its opening brace.
unfoldable pub key_tokens : KeyConfig → List Token → List Token
unfolding flag_tokens template_tokens headers_tokens
key_tokens key ts = flag_tokens "disable_body" key.disable_body (
    flag_tokens "disable_host" key.disable_host (
      flag_tokens "disable_method" key.disable_method (
        flag_tokens "disable_query" key.disable_query (
          flag_tokens "disable_scheme" key.disable_scheme (
            flag_tokens "disable_vary" key.disable_vary (
              flag_tokens "sort_query" key.sort_query (
                flag_tokens "hash" key.hash (
                  flag_tokens "hide" key.hide (
                    template_tokens key.template
                      (headers_tokens key.headers (text "}" ∷ ts)))))))))))

unfoldable pub rules_tokens : CacheKeys → List Token → List Token
unfolding key_tokens
rules_tokens [] ts = ts
rules_tokens ((pattern_, key) ∷ keys) ts =
    text pattern_ ∷ text "{" ∷ key_tokens key (rules_tokens keys ts)

unfoldable pub is_ascii : String → Bool
is_ascii [] = true
is_ascii (c ∷ s) = ltb (code c) 128 && is_ascii s

-- A text that a JSON decoder reads between quotes as it is: printable ASCII with neither a quote nor a
-- backslash.
unfoldable pub stands_quoted : String → Bool
stands_quoted [] = true
stands_quoted (c ∷ s) =
    leb 32 (code c)
    && (ltb (code c) 128
        && (not (eqb (code c) b'"') && (not (eqb (code c) b'\\') && stands_quoted s)))

-- A rule that is written as its tokens. Its pattern is printed between quotes without an escape, so
-- one that needs an escape is left out; the other texts are escaped by json.Marshal, which replaces
-- bytes only where a text is not ASCII.
unfoldable pub is_written : String × KeyConfig → Bool
unfolding is_ascii stands_quoted
is_written (pattern_, key) =
    stands_quoted pattern_ && (is_ascii key.template && all is_ascii key.headers)

-- MarshalJSON, as the tokens that a decoder reads of its text; `none` is a text for which they are not
-- given, with a pattern such as `.+\.css` or a text that is not ASCII.
unfoldable pub marshal_json : CacheKeys → Option (List Token)
unfolding rules_tokens is_written
marshal_json keys =
    if all is_written keys then some (text "{" ∷ rules_tokens keys (text "}" ∷ [])) else none
