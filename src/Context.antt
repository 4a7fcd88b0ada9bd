-- ===== src/Context.antt =====
-- context/: the values that are stored in a request's context before the cache is asked. A type of
-- the program whose method sets a value is a record of what SetupContext leaves in it.
pub mod Key
pub mod Laws
use souin.Prelude.{
  ℕ, ◌+◌, ◌*◌, ◌<◌, String, Bool, true, false, ◌||◌, ◌&&◌, not, Option, none, some, List, [], ◌∷◌,
  ◌==◌, any, is_some, or_else, ltb, if◌then◌else◌,
}
use souin.Prelude.Int.{ℤ, pos, ◌+ℤ◌, eqb_ℤ}
use souin.Text.{◌<>◌, has_prefix, count}
use souin.Clock.{Dates, second}
use souin.Http.{Request, ModeContext}
use souin.Http.Headers
use souin.Rfc.Revalidation.{is_empty}
use souin.Context.Key.{KeyContext, set_key_context}

-- The part of the configuration that the contexts read.
pub record ContextConfig : Type 0 where
  pub cache_name : String
  pub allowed_http_verbs : List String
  pub mode : String
  pub timeout_backend : ℤ
  pub timeout_cache : ℤ

-- cacheContext.SetupContext, and its SetContext (the parsed Cache-Control that it stores too is read
-- by nothing).
unfoldable pub setup_cache_name : ContextConfig → String
setup_cache_name c = if not (c.cache_name == "") then c.cache_name else "Souin"

unfoldable pub set_cache_name : String → Request → Request
set_cache_name name req = record req { context = record req.context { cache_name = name } }

-- methodContext
unfoldable pub setup_methods : ContextConfig → List String
setup_methods c =
    if not (is_empty c.allowed_http_verbs) then c.allowed_http_verbs else "GET" ∷ "HEAD" ∷ []

unfoldable pub supported : List String → String → Bool
supported verbs method = any (λ a. a == method) verbs

unfoldable pub set_method : List String → Request → Request
unfolding supported
set_method verbs req = record req {
  context = record req.context { supported_method = supported verbs req.method };
}

-- ModeContext
unfoldable pub setup_mode : ContextConfig → ModeContext
setup_mode c =
    let request = c.mode == "bypass" || c.mode == "bypass_request" in
    let response = c.mode == "bypass" || c.mode == "bypass_response" in
    record {
      strict = not request && not response;
      bypass_request = request;
      bypass_response = response;
    }

unfoldable pub set_mode : ModeContext → Request → Request
set_mode mode req = record req { context = record req.context { mode = mode } }

-- timeoutContext: the backend's timeout, then that of the cache.
unfoldable pub setup_timeouts : ContextConfig → ℤ × ℤ
setup_timeouts c = (
  if not (eqb_ℤ c.timeout_backend (pos 0)) then c.timeout_backend else pos (10 * second),
  if not (eqb_ℤ c.timeout_cache (pos 0)) then c.timeout_cache else pos 10_000_000,
)

unfoldable pub set_timeout : ℤ → ℤ × ℤ → Request → Request
unfolding ◌+ℤ◌
set_timeout now (backend, cache) req = record req {
  context = record req.context { deadline = some (now +ℤ backend); timeout_cache = cache };
}

-- nowContext: the Date of the request, or else the clock, which becomes its Date.
unfoldable pub set_now : Dates → ℤ → Request → Request
unfolding Headers.get Headers.set
set_now dates now req = elim (dates.parse_rfc1123 (Headers.get req.header "Date")) [
  | some date ↦ record req { context = record req.context { now = date } }
  | none ↦ record req {
    header = Headers.set req.header "Date" (dates.format_rfc1123 now);
    context = record req.context { now = now };
  }
]

-- isMutation
unfoldable pub is_mutation : String → Bool
unfolding has_prefix
is_mutation b = ltb 18 (count b) && has_prefix b "{\"query\":\"mutation"

-- The values of graphQLContext for a body; `hash` is the text of the body's sha256.
unfoldable pub graph_ql_values : (String → String) → Bool → Option String → Bool × String
unfolding is_mutation
graph_ql_values hash custom none = (false, "")
graph_ql_values hash custom (some b) =
    if custom && ltb 0 (count b)
    then if is_mutation b then (true, "") else (false, "-" <> hash b)
    else (false, "")

-- graphQLContext.SetContextWithBaseRequest: the body that it reads is put back.
unfoldable pub set_graph_ql : (String → String) → Bool → Request → Request
unfolding graph_ql_values
set_graph_ql hash custom req =
    let (mutation, hash_body) = graph_ql_values hash custom req.body in
    record req {
      context = record req.context {
        graph_ql = custom;
        hash_body = hash_body;
        is_mutation_request = mutation;
      };
    }

-- Context, after Init.
pub record Context : Type 0 where
  pub cache_name : String
  pub allowed_verbs : List String
  pub custom : Bool
  pub mode : ModeContext
  pub timeouts : ℤ × ℤ
  pub key : KeyContext

unfoldable pub init : ContextConfig → KeyContext → Context
unfolding setup_cache_name setup_methods setup_mode setup_timeouts
init c key = record {
  cache_name = setup_cache_name c;
  allowed_verbs = setup_methods c;
  custom = not (is_empty c.allowed_http_verbs);
  mode = setup_mode c;
  timeouts = setup_timeouts c;
  key = key;
}

-- SetBaseContext
unfoldable pub set_base_context : Dates → ℤ → Context → Request → Request
unfolding set_now set_cache_name set_method set_timeout set_mode
set_base_context dates now c req = set_mode c.mode (
    set_timeout now c.timeouts
      (set_method c.allowed_verbs (set_cache_name c.cache_name (set_now dates now req))))

module _ (hash : String → String) (replace_all : String → Request → String)
    (matches : String → String → Bool) (encode_query : String → String) where
  -- SetContext; replace_all, matches and encode_query are those of Context.Key.
  unfoldable pub set_context : Context → Request → Request
  unfolding set_graph_ql set_key_context
  set_context c req =
      set_key_context replace_all matches encode_query c.key (set_graph_ql hash c.custom req)
