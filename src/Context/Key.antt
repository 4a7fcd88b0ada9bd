-- ===== src/Context/Key.antt =====
-- context/key.go: the key of a request. The placeholders of Caddy's replacer, the regular
-- expressions and the sorted form of a query are arguments.
use souin.Prelude.{String, Bool, ◌&&◌, not, Option, none, some, List, [], ◌∷◌, ◌==◌, if◌then◌else◌}
use souin.Text.{◌<>◌}
use souin.Http.{Request}
use souin.Http.Headers

-- The switches of a key, without the overrides.
pub record KeyRule : Type 0 where
  pub disable_body : Bool
  pub disable_host : Bool
  pub disable_method : Bool
  pub disable_query : Bool
  pub sort_query : Bool
  pub disable_vary : Bool
  pub disable_scheme : Bool
  pub displayable : Bool
  pub hash : Bool
  pub headers : List String
  pub template : String

-- configurationtypes.Key
pub record KeyConfig : Type 0 where
  pub disable_body : Bool
  pub disable_host : Bool
  pub disable_method : Bool
  pub disable_query : Bool
  pub disable_scheme : Bool
  pub disable_vary : Bool
  pub sort_query : Bool
  pub hash : Bool
  pub hide : Bool
  pub template : String
  pub headers : List String

-- keyContext: the rule, and the overrides, each with its regular expression, in their order.
pub record KeyContext : Type 0 where
  pub rule : KeyRule
  pub overrides : List (String × KeyRule)

unfoldable pub setup_rule : KeyConfig → KeyRule
setup_rule k = record {
  disable_body = k.disable_body;
  disable_host = k.disable_host;
  disable_method = k.disable_method;
  disable_query = k.disable_query;
  sort_query = k.sort_query;
  disable_vary = k.disable_vary;
  disable_scheme = k.disable_scheme;
  displayable = not k.hide;
  hash = k.hash;
  headers = k.headers;
  template = k.template;
}

unfoldable pub setup_overrides : List (String × KeyConfig) → List (String × KeyRule)
unfolding setup_rule
setup_overrides [] = []
setup_overrides ((pattern_, k) ∷ keys) = (pattern_, setup_rule k) ∷ setup_overrides keys

-- keyContext.SetupContext: the entries of the cache keys are in one list.
unfoldable pub setup_key : KeyConfig → List (String × KeyConfig) → KeyContext
unfolding setup_rule setup_overrides
setup_key k cache_keys = record { rule = setup_rule k; overrides = setup_overrides cache_keys }

-- What parseKeyInformations returns, in the order of the key.
pub record KeyParts : Type 0 where
  pub method : String
  pub scheme : String
  pub host : String
  pub query : String
  pub body : String
  pub header_values : String

unfoldable pub header_values : Request → List String → String
unfolding Headers.get
header_values req [] = ""
header_values req (hn ∷ headers) = "-" <> (Headers.get req.header hn <> header_values req headers)

-- A key, the headers that it ignores, and whether it is hashed and shown.
pub record ComputedKey : Type 0 where
  pub key : String
  pub headers : List String
  pub hash : Bool
  pub displayable : Bool

module _ (replace_all : String → Request → String) (matches : String → String → Bool)
    (encode_query : String → String) where
  unfoldable pub parse_key_informations : Request → KeyRule → KeyParts
  unfolding header_values
  parse_key_informations req k = record {
    method = if k.disable_method then "" else req.method <> "-";
    scheme = if k.disable_scheme then "" else if req.tls then "https-" else "http-";
    host = if k.disable_host then "" else req.host <> "-";
    query =
        if not k.disable_query && not (req.raw_query == "")
        then "?" <> (if k.sort_query then encode_query req.raw_query else req.raw_query)
        else "";
    body = if k.disable_body then "" else req.context.hash_body;
    header_values = header_values req k.headers;
  }

  -- key = method + scheme + host + key + query + body + headerValues
  unfoldable pub assemble : Request → KeyParts → String
  assemble req p =
      p.method <> (p.scheme <> (p.host <> (req.path <> (p.query <> (p.body <> p.header_values)))))

  -- The rule of the first override that matches the URI.
  unfoldable pub matching_rule : String → List (String × KeyRule) → Option KeyRule
  matching_rule uri [] = none
  matching_rule uri ((pattern_, rule) ∷ overrides) =
      if matches pattern_ uri then some rule else matching_rule uri overrides

  -- The key of a rule: from its template if it has one.
  unfoldable pub key_of_rule : Request → KeyRule → ComputedKey
  unfolding parse_key_informations assemble
  key_of_rule req rule = record {
    key =
        if not (rule.template == "")
        then replace_all rule.template req
        else assemble req (parse_key_informations req rule);
    headers = rule.headers;
    hash = rule.hash;
    displayable = rule.displayable;
  }

  -- computeKey: a template of the main rule comes before the overrides.
  unfoldable pub compute_key : KeyContext → Request → ComputedKey
  unfolding key_of_rule matching_rule
  compute_key g req =
      let overridden : ComputedKey = elim (matching_rule req.request_uri g.overrides) [
        | none ↦ key_of_rule req g.rule
        | some rule ↦ key_of_rule req rule
      ] in
      if not (g.rule.template == "") then key_of_rule req g.rule else overridden

  -- keyContext.SetContext; the flag on variants is always that of the main rule.
  unfoldable pub set_key_context : KeyContext → Request → Request
  unfolding compute_key
  set_key_context g req =
      let computed = compute_key g req in
      record req {
        context = record req.context {
          key = some computed.key;
          disable_vary = some g.rule.disable_vary;
          hashed = computed.hash;
          ignored_headers = computed.headers;
          displayable_key = some computed.displayable;
        };
      }
