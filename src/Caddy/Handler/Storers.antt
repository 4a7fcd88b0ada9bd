-- ===== src/Caddy/Handler/Storers.antt =====
-- plugins/caddy/dispatch.go: parseStorages, which loads the storages of a configuration and names each
-- one that is loaded. Whether Caddy loads a module, fmt.Sprint, the text of a duration and the working
-- directory are arguments. `none` is the panic of an address list of another type.
use souin.Prelude.{String, Bool, ◌&&◌, Option, none, some, ◌==◌, ◌>>=◌, if◌then◌else◌}
use souin.Prelude.Int.{ℤ}
use souin.Text.{◌<>◌, join}
use souin.Entries.{load}
use souin.Configuration.{CacheProvider}
use souin.Configuration.Dynamic.{Value, as_object, as_array, as_text, each}
use souin.Caddy.{DefaultCache}

-- p["key"] where the configuration is a map.
unfoldable pub member : String → Value → Option Value
unfolding as_object load
member k c = as_object c >>= load k

-- A list of addresses, joined by commas.
unfoldable pub addresses : Value → Option String
unfolding as_array each as_text join
addresses v = as_array v >>= each as_text >>= λ elements. some (join elements ",")

module _ (print : Value → String) (duration_string : ℤ → String) (working_directory : String) where
  -- The text of a member, or else another.
  abbrev pub printed : String → Value → String → String
  printed k c other = elim (member k c) [ none ↦ other | some v ↦ print v ]

  unfoldable pub badger_uuid : CacheProvider → ℤ → String
  badger_uuid p stale =
      let dir = printed "Dir" p.configuration p.path in
      let vdir = printed "ValueDir" p.configuration dir in
      let dir' = if dir == "" then "souin_dir" else dir in
      let vdir' = if vdir == "" then dir' else vdir in
      elim p.configuration [
        | Value.nil ↦ "BADGER-" <> (p.path <> ("-" <> (p.path <> ("-" <> duration_string stale))))
        | _ ↦ "BADGER-" <> (dir' <> ("-" <> (vdir' <> ("-" <> duration_string stale))))
      ]

  unfoldable pub etcd_uuid : CacheProvider → ℤ → String
  etcd_uuid p stale =
      let c = p.configuration in
      "ETCD-"
      <> (printed "Endpoints" c p.url
          <> ("-"
              <> (printed "Username" c ""
                  <> ("-" <> (printed "Password" c "" <> ("-" <> duration_string stale))))))

  unfoldable pub nats_uuid : CacheProvider → ℤ → String
  nats_uuid p stale = "NATS-" <> (p.url <> ("-" <> duration_string stale))

  unfoldable pub nuts_dir : CacheProvider → String
  nuts_dir p = elim p.configuration [
    | Value.nil ↦ if p.path == "" then "/tmp/souin-nuts" else p.path
    | c ↦ elim (member "Dir" c) [ none ↦ "/tmp/souin-nuts" | some v ↦ print v ]
  ]

  unfoldable pub nuts_uuid : CacheProvider → ℤ → String
  unfolding nuts_dir
  nuts_uuid p stale = "NUTS-" <> (nuts_dir p <> ("-" <> duration_string stale))

  unfoldable pub olric_uuid : CacheProvider → ℤ → String
  olric_uuid p stale = "OLRIC-" <> (p.url <> ("-" <> duration_string stale))

  unfoldable pub otter_uuid : CacheProvider → ℤ → String
  otter_uuid p stale = "OTTER-" <> duration_string stale

  -- The addresses of Redis: those of go-redis count more than those of rueidis.
  unfoldable pub redis_address : Value → String → Option String
  unfolding addresses
  redis_address c url = do
    first ← elim (member "InitAddress" c) [ none ↦ some url | some v ↦ addresses v ]
    elim (member "Addrs" c) [ none ↦ some first | some v ↦ addresses v ]

  unfoldable pub redis_uuid : CacheProvider → ℤ → Option String
  unfolding redis_address
  redis_uuid p stale =
      let c = p.configuration in
      redis_address c p.url >>= λ address. some (
        "REDIS-"
        <> (address
            <> ("-"
                <> (printed "Username" c ""
                    <> ("-"
                        <> (printed "DB" c (printed "SelectDB" c "0")
                            <> ("-"
                                <> (printed "ClientName" c "souin-redis"
                                    <> ("-" <> duration_string stale)))))))))

  unfoldable pub simplefs_uuid : CacheProvider → String
  simplefs_uuid p =
      let c = p.configuration in
      let path = if p.path == "" then printed "path" c "" else p.path in
      let path' = if path == "" then working_directory else path in
      "SIMPLEFS-" <> (path' <> ("-" <> printed "size" c "0"))

  module _ (loads : String → CacheProvider → ℤ → Bool) where
    -- A storage gets its name if it is configured and Caddy loads it.
    unfoldable pub named : String → ℤ → String → CacheProvider → CacheProvider
    named module_ stale uuid p =
        if p.found && loads module_ p stale then record p { uuid = uuid } else p

    unfoldable pub named_redis : ℤ → CacheProvider → Option CacheProvider
    unfolding redis_uuid
    named_redis stale p =
        let loaded : Option CacheProvider =
          redis_uuid p stale >>= λ uuid. some (record p { uuid = uuid }) in
        if p.found && loads "redis" p stale then loaded else some p

    unfoldable pub parse_storages : DefaultCache → Option DefaultCache
    unfolding named named_redis badger_uuid etcd_uuid nats_uuid nuts_uuid olric_uuid otter_uuid
        simplefs_uuid
    parse_storages dc =
        let stale = dc.stale in
        named_redis stale dc.redis >>= λ redis. some (record dc {
          badger = named "badger" stale (badger_uuid dc.badger stale) dc.badger;
          etcd = named "etcd" stale (etcd_uuid dc.etcd stale) dc.etcd;
          nats = named "nats" stale (nats_uuid dc.nats stale) dc.nats;
          nuts = named "nuts" stale (nuts_uuid dc.nuts stale) dc.nuts;
          olric = named "olric" stale (olric_uuid dc.olric stale) dc.olric;
          otter = named "otter" stale (otter_uuid dc.otter stale) dc.otter;
          redis = redis;
          simplefs = named "simplefs" stale (simplefs_uuid dc.simplefs) dc.simplefs;
        })
