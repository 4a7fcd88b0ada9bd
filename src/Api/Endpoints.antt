-- ===== src/Api/Endpoints.antt =====
-- pkg/api/main.go, with the starts of pkg/api/debug and pkg/api/prometheus: which endpoints answer.
pub mod Reach
use souin.Prelude.{
  String, Bool, true, false, Option, none, some, List, [], ◌∷◌, ◌==◌, if◌then◌else◌,
}
use souin.Text.{◌<>◌}
use souin.Entries.{Entries, store}
use souin.Configuration.{Api, ApiEndpoint}

-- The handler of a request: which of the three endpoints it belongs to.
pub data Target : Type 0 where
  administration : Target
  debug : Target
  prometheus : Target

-- What EndpointInterface says of an endpoint.
pub record Endpoint : Type 0 where
  pub target : Target
  pub base_path : String
  pub enabled : Bool

-- InitializeDebug and its like: the base path, or else the one of the endpoint.
unfoldable pub initialize_endpoint : Target → String → ApiEndpoint → Endpoint
initialize_endpoint target default_path e = record {
  target = target;
  base_path = if e.base_path == "" then default_path else e.base_path;
  enabled = e.enable;
}

-- Initialize
unfoldable pub initialize : Api → List Endpoint
unfolding initialize_endpoint
initialize api =
    initialize_endpoint administration "/souin" api.souin
    ∷ initialize_endpoint debug "/debug/" api.debug
    ∷ initialize_endpoint prometheus "/metrics" api.prometheus
    ∷ []

unfoldable pub add_endpoints : String → List Endpoint → Entries Target → Entries Target
unfolding store
add_endpoints base [] handlers = handlers
add_endpoints base (e ∷ endpoints) handlers =
    add_endpoints base endpoints
      (if e.enabled then store (base <> e.base_path) e.target handlers else handlers)

-- GenerateHandlerMap: none is that no endpoint is enabled.
unfoldable pub generate_handler_map : Api → Option (Entries Target)
unfolding initialize add_endpoints
generate_handler_map api =
    let base = if api.base_path == "" then "/souin-api" else api.base_path in
    elim (add_endpoints base (initialize api) []) [ [] ↦ none | h ∷ hs ↦ some (h ∷ hs) ]
