-- ===== src/Caddy/Admin.antt =====
-- plugins/caddy/admin.go: the admin API of Caddy, which serves the endpoints of the administration.
-- `none` is the error 404.
use souin.Prelude.{Option, none, some}
use souin.Entries.{Entries}
use souin.Http.{Request}
use souin.Configuration.{Api}
use souin.Api.Endpoints.{Target, generate_handler_map}
use souin.Middleware.Serve.{handle_internally}
use souin.Caddy.Provision.{NotifierItem}

unfoldable pub handle_api_endpoints : {H : Type 0} → Option (Entries H) → Request → Option H
unfolding handle_internally
handle_api_endpoints none request = none
handle_api_endpoints (some handlers) request = handle_internally handlers request

-- The handlers, once the item of the channel is there.
unfoldable pub internal_endpoint_handlers :
    {G : Type 0} → NotifierItem Api G → Option (Entries Target)
unfolding generate_handler_map
internal_endpoint_handlers item = generate_handler_map item.api
