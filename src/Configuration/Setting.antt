-- ===== src/Configuration/Setting.antt =====
-- What one key of `default_cache` sets in a configurationtypes.DefaultCache, for the parsers of the
-- plugins, which switch on the key.
use souin.Prelude.{ℕ, String, true, Option, none, some, List, ◌>>=◌}
use souin.Prelude.Int.{ℤ}
use souin.Context.Key.{KeyConfig}
use souin.Configuration.{CacheProvider, Cdn, Timeout, DefaultCache}

-- Olric and Redis also set the flag `distributed`.
pub data Setting : Type 0 where
  allowed_http_verbs : List String → Setting
  allowed_additional_status_codes : List ℤ → Setting
  badger : CacheProvider → Setting
  cache_name : String → Setting
  cdn : Cdn → Setting
  default_cache_control : String → Setting
  etcd : CacheProvider → Setting
  headers : List String → Setting
  key : KeyConfig → Setting
  mapping_eviction_interval : ℤ → Setting
  max_body_bytes : ℕ → Setting
  mode : String → Setting
  nats : CacheProvider → Setting
  nuts : CacheProvider → Setting
  olric : CacheProvider → Setting
  otter : CacheProvider → Setting
  redis : CacheProvider → Setting
  regex : String → Setting
  simplefs : CacheProvider → Setting
  stale : ℤ → Setting
  storers : List String → Setting
  timeout : Timeout → Setting
  ttl : ℤ → Setting

unfoldable pub put : Setting → DefaultCache → DefaultCache
put (allowed_http_verbs x) dc = record dc { allowed_http_verbs = x }
put (allowed_additional_status_codes x) dc = record dc { allowed_additional_status_codes = x }
put (badger x) dc = record dc { badger = x }
put (cache_name x) dc = record dc { cache_name = x }
put (cdn x) dc = record dc { cdn = x }
put (default_cache_control x) dc = record dc { default_cache_control = x }
put (etcd x) dc = record dc { etcd = x }
put (headers x) dc = record dc { headers = x }
put (key x) dc = record dc { key = x }
put (mapping_eviction_interval x) dc = record dc { mapping_eviction_interval = x }
put (max_body_bytes x) dc = record dc { max_body_bytes = x }
put (mode x) dc = record dc { mode = x }
put (nats x) dc = record dc { nats = x }
put (nuts x) dc = record dc { nuts = x }
put (olric x) dc = record dc { distributed = true; olric = x }
put (otter x) dc = record dc { otter = x }
put (redis x) dc = record dc { distributed = true; redis = x }
put (regex x) dc = record dc { exclude = x }
put (simplefs x) dc = record dc { simplefs = x }
put (stale x) dc = record dc { stale = x }
put (storers x) dc = record dc { storers = x }
put (timeout x) dc = record dc { timeout = x }
put (ttl x) dc = record dc { ttl = x }

-- The key that sets this. (Traefik has another spelling of max_cacheable_body_bytes.)
unfoldable pub key_of : Setting → String
key_of (allowed_http_verbs x) = "allowed_http_verbs"
key_of (allowed_additional_status_codes x) = "allowed_additional_status_codes"
key_of (badger x) = "badger"
key_of (cache_name x) = "cache_name"
key_of (cdn x) = "cdn"
key_of (default_cache_control x) = "default_cache_control"
key_of (etcd x) = "etcd"
key_of (headers x) = "headers"
key_of (key x) = "key"
key_of (mapping_eviction_interval x) = "mapping_eviction_interval"
key_of (max_body_bytes x) = "max_cacheable_body_bytes"
key_of (mode x) = "mode"
key_of (nats x) = "nats"
key_of (nuts x) = "nuts"
key_of (olric x) = "olric"
key_of (otter x) = "otter"
key_of (redis x) = "redis"
key_of (regex x) = "regex"
key_of (simplefs x) = "simplefs"
key_of (stale x) = "stale"
key_of (storers x) = "storers"
key_of (timeout x) = "timeout"
key_of (ttl x) = "ttl"

-- A key may set nothing.
unfoldable pub put_option : Option Setting → DefaultCache → DefaultCache
unfolding put
put_option none dc = dc
put_option (some s) dc = put s dc

-- One round of the loop over the keys: `setting` is the switch on a key.
unfoldable pub set_default_cache :
    {V : Type 0}
    → (String → V → Option (Option Setting))
    → String
    → V
    → DefaultCache
    → Option DefaultCache
unfolding put_option
set_default_cache setting k v dc = do s ← setting k v; some (put_option s dc)

-- A value that may be a panic, and what it sets.
unfoldable pub setting_of : {A : Type 0} → (A → Setting) → Option A → Option (Option Setting)
setting_of set o = o >>= λ a. some (some (set a))
