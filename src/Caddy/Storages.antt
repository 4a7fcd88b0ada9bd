-- ===== src/Caddy/Storages.antt =====
-- plugins/caddy/configuration.go: parseBadgerConfiguration, parseRedisConfiguration and
-- parseSimpleFSConfiguration. `none` is the panic of a value that is no text. time.ParseDuration is
-- an argument, and so is strconv.ParseFloat, for the text by which a float is kept.
use souin.Prelude.{
  String, true, false, Option, none, some, List, [], ◌∷◌, ◌==◌, ◌>>=◌, or_else, if◌then◌else◌,
}
use souin.Prelude.Int.{ℤ, pos}
use souin.Entries.{Entries}
use souin.Text.{has_prefix, cut_prefix, trim_blanks}
use souin.Text.Members.{holds}
use souin.Text.Numbers.{atoi_value, uint_value, bool_value}
use souin.Configuration.Dynamic.{Value, Fields, as_text}

abbrev pub badger_flags : List String
badger_flags =
    "SyncWrites" ∷ "ReadOnly" ∷ "InMemory" ∷ "MetricsEnabled" ∷ "CompactL0OnClose"
    ∷ "LmaxCompaction" ∷ "VerifyValueChecksum" ∷ "BypassLockGuard" ∷ "DetectConflicts" ∷ []

abbrev pub badger_numbers : List String
badger_numbers =
    "NumVersionsToKeep" ∷ "NumGoroutines" ∷ "MemTableSize" ∷ "BaseTableSize" ∷ "BaseLevelSize"
    ∷ "LevelSizeMultiplier" ∷ "TableSizeMultiplier" ∷ "MaxLevels" ∷ "ValueThreshold"
    ∷ "NumMemtables" ∷ "BlockSize" ∷ "BlockCacheSize" ∷ "IndexCacheSize" ∷ "NumLevelZeroTables"
    ∷ "NumLevelZeroTablesStall" ∷ "ValueLogFileSize" ∷ "NumCompactors" ∷ "ZSTDCompressionLevel"
    ∷ "ChecksumVerificationMode" ∷ "NamespaceOffset" ∷ []

-- A flag is true by its name, unless a text says otherwise.
unfoldable pub flag_value : Value → Value
unfolding bool_value
flag_value (Value.text s) = Value.bool (bool_value s)
flag_value _ = Value.bool true

-- A number: a Boolean counts as 0 or 1.
unfoldable pub number_value : Value → Option Value
unfolding atoi_value as_text
number_value (Value.bool false) = some (Value.int (pos 0))
number_value (Value.bool true) = some (Value.int (pos 1))
number_value v = as_text v >>= λ s. some (Value.int (atoi_value s))

module _ (parse_duration : String → Option ℤ) (parse_float : String → String) where
  unfoldable pub duration_value : Value → Option Value
  unfolding as_text
  duration_value v = as_text v >>= λ s. some (Value.duration (or_else (parse_duration s) (pos 0)))

  unfoldable pub badger_value : String → Value → Option Value
  unfolding as_text flag_value atoi_value uint_value duration_value
  badger_value k v =
      if holds k badger_flags
      then some (flag_value v)
      else if holds k badger_numbers
      then (as_text v >>= λ s. some (Value.int (atoi_value s)))
      else if holds k ("Compression" ∷ "ValueLogMaxEntries" ∷ [])
      then (as_text v >>= λ s. some (Value.uint64 (uint_value 32 s)))
      else if holds k ("VLogPercentile" ∷ "BloomFalsePositive" ∷ [])
      then (as_text v >>= λ s. some (Value.float (parse_float s)))
      else if k == "EncryptionKey"
      then (as_text v >>= λ s. some (Value.bytes s))
      else if k == "EncryptionKeyRotationDuration"
      then duration_value v
      else some v

  unfoldable pub parse_badger_configuration : Entries Value → Option (Entries Value)
  unfolding badger_value
  parse_badger_configuration [] = some []
  parse_badger_configuration ((k, v) ∷ c) = do
    v' ← badger_value k v
    c' ← parse_badger_configuration c
    some ((k, v') ∷ c')

abbrev pub redis_flags : List String
redis_flags =
    "SendToReplicas" ∷ "ShuffleInit" ∷ "ClientNoTouch" ∷ "DisableRetry" ∷ "DisableCache"
    ∷ "AlwaysPipelining" ∷ "AlwaysRESP2" ∷ "ForceSingleClient" ∷ "ReplicaOnly" ∷ "ClientNoEvict"
    ∷ "ContextTimeoutEnabled" ∷ "PoolFIFO" ∷ "ReadOnly" ∷ "RouteByLatency" ∷ "RouteRandomly"
    ∷ "DisableIndentity" ∷ []

abbrev pub redis_numbers : List String
redis_numbers =
    "SelectDB" ∷ "CacheSizeEachConn" ∷ "RingScaleEachConn" ∷ "ReadBufferEachConn"
    ∷ "WriteBufferEachConn" ∷ "BlockingPoolSize" ∷ "PipelineMultiplex" ∷ "DB" ∷ "Protocol"
    ∷ "MaxRetries" ∷ "PoolSize" ∷ "MinIdleConns" ∷ "MaxIdleConns" ∷ "MaxActiveConns"
    ∷ "MaxRedirects" ∷ []

abbrev pub redis_durations : List String
redis_durations =
    "ConnWriteTimeout" ∷ "MaxFlushDelay" ∷ "MinRetryBackoff" ∷ "MaxRetryBackoff" ∷ "DialTimeout"
    ∷ "ReadTimeout" ∷ "WriteTimeout" ∷ "PoolTimeout" ∷ "ConnMaxIdleTime" ∷ "ConnMaxLifetime" ∷ []

-- The name of a TLS version, without what stands before the number.
unfoldable pub version_name : Value → String
unfolding has_prefix cut_prefix trim_blanks
version_name (Value.text s) = if has_prefix s "TLS" then trim_blanks (cut_prefix s "TLS") else s
version_name _ = ""

-- The code of a TLS version; a version that is not known stays as it is.
unfoldable pub version_value : Value → Value
unfolding version_name
version_value v =
    let name = version_name v in
    if holds name ("0x0300" ∷ "SSLv3" ∷ [])
    then Value.int (pos 0x0300)
    else if holds name ("0x0301" ∷ "1.0" ∷ [])
    then Value.int (pos 0x0301)
    else if holds name ("0x0302" ∷ "1.1" ∷ [])
    then Value.int (pos 0x0302)
    else if holds name ("0x0303" ∷ "1.2" ∷ [])
    then Value.int (pos 0x0303)
    else if holds name ("0x0304" ∷ "1.3" ∷ [])
    then Value.int (pos 0x0304)
    else v

-- One address is a list of one.
unfoldable pub addresses_value : Value → Value
addresses_value (Value.text s) = Value.texts (s ∷ [])
addresses_value v = v

module _ (parse_duration : String → Option ℤ) (parse_float : String → String) where
  -- The switch of parseRedisConfiguration, but for the block of TLS.
  unfoldable pub redis_scalar : String → Value → Option Value
  unfolding addresses_value number_value duration_value version_value
  redis_scalar k v =
      if holds k ("Addrs" ∷ "InitAddress" ∷ [])
      then some (addresses_value v)
      else if holds k redis_flags
      then some (Value.bool true)
      else if holds k redis_numbers
      then number_value v
      else if holds k redis_durations
      then duration_value parse_duration parse_float v
      else if holds k ("MaxVersion" ∷ "MinVersion" ∷ [])
      then some (version_value v)
      else some v

  unfoldable mutual
    pub redis_value : String → Value → Option Value
    redis_value k (Value.object m) =
        let nested : Option Value = parse_redis_configuration m >>= λ m'. some (Value.object m') in
        if k == "TLSConfig" then nested else redis_scalar k (Value.object m)
    redis_value k v = if k == "TLSConfig" then none else redis_scalar k v

    pub parse_redis_configuration : Fields → Option Fields
    parse_redis_configuration Fields.done = some Fields.done
    parse_redis_configuration (Fields.field k v m) =
        redis_value k v >>= λ v'. parse_redis_configuration m >>= λ m'. some (Fields.field k v' m')

unfoldable pub simplefs_value : String → Value → Option Value
unfolding number_value
simplefs_value k v =
    if k == "size" then number_value v else if k == "directory_size" then number_value v else some v

unfoldable pub parse_simplefs_configuration : Entries Value → Option (Entries Value)
unfolding simplefs_value
parse_simplefs_configuration [] = some []
parse_simplefs_configuration ((k, v) ∷ c) = do
  v' ← simplefs_value k v
  c' ← parse_simplefs_configuration c
  some ((k, v') ∷ c')
