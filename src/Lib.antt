-- ===== src/Lib.antt =====
-- Souin, an HTTP cache in Go: the parts that decide what is stored, under which key, for how long,
-- and what is purged.
--
-- A request passes the middleware (pkg/middleware), which fills the request's context (context/),
-- asks the storages for a stored response, and sends it or calls the upstream server and stores the
-- response. pkg/rfc holds the rules on ages, variants and the header Cache-Status; pkg/storage the
-- contract of a storage and the storage in memory; pkg/surrogate the tags of the responses, which
-- stand in a storage as well; pkg/api the administration, which lists, evicts and purges. What all of
-- them do depends on a configuration (configurationtypes/), which a plugin parses: that of Caddy from
-- the tokens of a Caddyfile, the others from maps.
--
-- Files and what they model:
--   Prelude, Prelude/*   library names, tests on numbers, lists, options, signed integers
--   Text, Text/*         Go strings as texts of bytes, with the functions of the packages strings,
--                        net/url (QueryEscape, QueryUnescape) and strconv that the code calls
--   Http, Http/Headers   http.Header, requests, responses and response writers
--   Entries, Clock       maps with text keys; times and durations in nanoseconds, as integers
--   Storage              pkg/storage/types: the interface Storer as a record over a state
--   Storage/Contract     the laws of a Storer that its clients use
--   Storage/Default      pkg/storage/defaultProvider.go, one function for each method
--   Storage/Default/Index  what its index gives, for a library whose election does as documented
--   Surrogate            pkg/surrogate/providers: the parts without state
--   Surrogate/Base       baseStorage of common.go: storeTag, Store, Purge, purgeTag, Invalidate
--   Surrogate/Cdn        akamai.go, cloudflare.go, fastly.go: what a provider adds to baseStorage
--   Rfc, Rfc/*           pkg/rfc: utils.go, vary.go, age.go, revalidation.go, cache_status.go
--   Context, Context/Key context/: what SetBaseContext and SetContext leave in a request
--   Middleware           pkg/middleware/middleware.go: the tests of codes, headers and storers
--   Middleware/Writer    writer.go: CustomWriter
--   Middleware/Lock      tryAcquireEvictionLock, in two halves with what other instances do between
--   Middleware/Evict     registerMappingKeysEviction, from tick to tick
--   Middleware/Freshness the lifetime that Store computes
--   Middleware/Insertion Store, its keys and its insertions in the storers
--   Middleware/Store     (*SouinBaseHandler).Store, in the order of its returns
--   Middleware/Upstream  Upstream, as a chain of calls with the outcomes that singleflight gives
--   Middleware/Revalidate  Revalidate and backfillStorers
--   Middleware/Lookup    the loop over the storers in ServeHTTP, and how a stored response is written
--   Middleware/Fresh, Middleware/Stale  the branches of ServeHTTP for a fresh and a stale response
--   Middleware/Serve     ServeHTTP and HandleInternally
--   Middleware/Init      NewHTTPCacheHandler: the storers of a handler, and the URL by default
--   Api, Api/*           pkg/api/souin.go: BulkDelete, Delete, GetAll, EvictMapping, HandleRequest
--   Api/Endpoints        pkg/api/main.go: GenerateHandlerMap
--   Configuration        configurationtypes/types.go: the structures of a configuration
--   Configuration/Json   parseJSON and MarshalJSON of CacheKeys, over the tokens of a decoder
--   Configuration/Dynamic  Go's interface{} and the loop over a map[string]interface{}
--   Configuration/Setting  the assignments of parseDefaultCache
--   Configuration/Agnostic, Configuration/Agnostic/Parser  plugins/souin/agnostic/configuration_parser.go
--   Configuration/Kratos, Configuration/Kratos/Parser  plugins/kratos/configuration.go
--   Configuration/Traefik, Configuration/Traefik/Parser  plugins/traefik/main.go
--   Configuration/Order  maps whose order Go does not fix
--   Caddy                plugins/caddy/configuration.go: the structures
--   Caddy/Dispenser      the loops over the tokens of a Caddyfile, and parseCaddyfileRecursively
--   Caddy/Storages       parseBadgerConfiguration, parseRedisConfiguration, parseSimpleFSConfiguration
--   Caddy/Parser, Caddy/Parser/Root  parseConfiguration: the lines of its blocks, and its switch
--   Caddy/Handler        httpcache.go and app.go: FromApp
--   Caddy/Handler/Storers  dispatch.go: parseStorages
--   Caddy/Caddyfile      httpcache.go: UnmarshalCaddyfile and parseCaddyfileGlobalOption
--   Caddy/Provision, Caddy/Admin  httpcache.go, app.go and admin.go: what the handlers share
--   Tests, Tests/*       runs of the theorems on concrete data
--
-- State is passed on: an operation takes the state and returns it with its result. A method that may
-- panic returns an option, and `none` is the panic; of an error only that there is one is kept. The
-- storages of a handler share one state type, so a tag and a response can stand in one storage. An
-- operation that reads the clock takes the time, once for the whole call.
--
-- Durations are integers; where the code adds or subtracts int64 values that may leave their range,
-- the wrap-around is written out (Clock). The loop that builds the batches of tags runs on fuel, the
-- number of tags, which is enough since each round takes thirty of them. So do the loops over the
-- tokens of a Caddyfile, where more fuel than there are tokens is enough, and parseRecursively of the
-- Kratos plugin, where more than the depth of the maps is enough, and parseJSON, where as much fuel
-- as there are tokens is enough for what MarshalJSON writes.
--
-- Arguments stand for what is not in the repository: the parser of Cache-Control (cacheobject), the
-- mapping functions and the protobuf messages of darkweak/storages (core), the compressor, regular
-- expressions, the date formats, the hash and the JSON encoder, Caddy's dispenser, the values of
-- Kratos and cast.ToBool of the Traefik plugin. The tokens that a json.Decoder gives are a list. The
-- interface Storer is a record of arguments as well, with the storage in memory as an instance.
--
-- Concurrency: what singleflight gives the calls of one request is a list of outcomes (the call ran
-- alone, ran for others too, or got the result of another call), which Upstream takes one by one; a
-- call after the last outcome runs alone. Whether the context of a request ends before the upstream
-- server answers is an argument. The goroutines of Store run in the order of the storers; those that
-- store the tags, fill the earlier storers or revalidate in the background run at once.
--
-- Not modelled: what goes on after a timeout, panics of the next handler, the adapters of the plugins
-- to their web servers, the forks of these packages below plugins/traefik and plugins/tyk, the decoding
-- of a configuration by encoding/json and yaml, what MarshalJSON of CacheKeys writes for patterns that
-- need an escape in JSON, logging, metrics and profiling.
mod Prelude
pub mod Text
pub mod Http
pub mod Entries
pub mod Clock
pub mod Storage
pub mod Surrogate
pub mod Rfc
pub mod Configuration
pub mod Context
pub mod Caddy
pub mod Middleware
pub mod Api
mod Tests
