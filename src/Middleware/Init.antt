-- ===== src/Middleware/Init.antt =====
-- NewHTTPCacheHandler of pkg/middleware/middleware.go: the storers and the defaults of a handler. The
-- storages that are registered in package core are arguments, as is the storage in memory.
use souin.Prelude.{String, Bool, Option, none, some, List, [], ◌∷◌, ◌==◌, or_else, if◌then◌else◌}
use souin.Storage.{Storer, default_storage_name}
use souin.Text.{◌<>◌}
use souin.Configuration.{DefaultCache, Url}
use souin.Middleware.{reorder_storers}

-- The names under which the configured storages are registered, in the order of the code.
unfoldable pub uuids : DefaultCache → List String
uuids dc =
    dc.badger.uuid ∷ dc.etcd.uuid ∷ dc.nats.uuid ∷ dc.nuts.uuid ∷ dc.olric.uuid ∷ dc.otter.uuid
    ∷ dc.redis.uuid ∷ dc.simplefs.uuid ∷ []

module _ {S : Type 0} (registered : String → Option (Storer S)) where
  unfoldable pub registered_storers : List String → List (Storer S)
  registered_storers [] = []
  registered_storers (uuid ∷ names) =
      let rest = registered_storers names in
      let found : List (Storer S) = elim (registered uuid) [ none ↦ rest | some st ↦ st ∷ rest ] in
      if uuid == "" then rest else found

  -- The storers: the configured ones in their order, or else the one in memory. `any_registered` is
  -- whether the package core knows a storage at all.
  unfoldable pub initial_storers : Bool → S → DefaultCache → Storer S → List (Storer S)
  unfolding registered_storers uuids reorder_storers
  initial_storers any_registered s dc memory =
      let configured : List (Storer S) =
        if any_registered
        then reorder_storers s (registered_storers (uuids dc)) dc.storers
        else [] in
      elim configured [
        | [] ↦ or_else (registered (default_storage_name <> "-")) memory ∷ []
        | st ∷ sts ↦ st ∷ sts
      ]

-- The URL that stands for all that match no pattern.
unfoldable pub default_matched_url : DefaultCache → Url
default_matched_url dc = record {
  ttl = dc.ttl;
  headers = dc.headers;
  default_cache_control = dc.default_cache_control;
}
