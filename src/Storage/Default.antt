-- ===== src/Storage/Default.antt =====
-- pkg/storage/defaultProvider.go: the storage in memory.
pub mod Laws
pub mod Invariant
pub mod Refinement
pub mod Index
use souin.Prelude.{
  String, Bool, true, false, ◌&&◌, ◌||◌, Option, none, some, List, [], ◌∷◌, ◌++◌, ◌==◌, is_some,
  if◌then◌else◌,
}
use souin.Prelude.Int.{ℤ, ltb_ℤ, ◌+ℤ◌}
use souin.Text.{◌<>◌, has_prefix, cut_prefix}
use souin.Clock.{add_duration}
use souin.Http.{Request}
use souin.Http.Headers.{Header}
use souin.Storage.{
  KeyIndex, StorageMapper, Revalidator, Candidates, Storer, default_storage_name,
  mapping_key_prefix,
}
use souin.Entries.{Entries, load, store, erase}

-- What the map holds: an item, the bytes of an encoded mapping, or a mapping.
pub data Stored : Type 0 where
  item : ℤ → String → Stored
  bytes : String → Stored
  mapper : StorageMapper → Stored

pub record Default : Type 0 where
  pub m : Entries Stored
  pub stale : ℤ

-- The calls of the package core, of the compressor and of the package regexp.
pub record Library : Type 0 where
  pub decode_mapping : String → Option StorageMapper
  pub mapping_updater : String → String → ℤ → ℤ → ℤ → Header → String → String → Option String
  pub mapping_election :
      (String → Default → String × Default)
      → ℤ
      → String
      → Request
      → Revalidator
      → Default
      → Candidates × Default
  pub compress : String → Option String
  -- regexp.Compile(pattern), and MatchString of its result
  pub compiles : String → Bool
  pub matches : String → String → Bool

-- v.invalidAt.After(now)
abbrev pub after : ℤ → ℤ → Bool
after t now = ltb_ℤ now t

unfoldable pub get_stored : ℤ → String → Option Stored → Default → String × Default
get_stored now key none provider = ("", provider)
get_stored now key (some (item invalid_at value)) provider =
    if after invalid_at now
    then (value, provider)
    else ("", record provider { m = erase key provider.m })
get_stored now key (some (bytes b)) provider = ("", provider)
get_stored now key (some (mapper mapping)) provider = ("", provider)

unfoldable pub get : ℤ → String → Default → String × Default
unfolding get_stored load erase
get now key provider = get_stored now key (load key provider.m) provider

-- The loop of MapKeys over a mapping that stands in the map.
unfoldable pub map_mapping : ℤ → StorageMapper → Entries String → Default → Entries String × Default
unfolding get store
map_mapping now [] keys provider = (keys, provider)
map_mapping now ((_, v) ∷ mapping) keys provider =
    let (value, provider') = get now v.real_key provider in
    map_mapping now mapping (if after v.stale_time now then store v.real_key value keys else keys)
      (if after v.stale_time now then provider' else provider)

-- One round of the Range in MapKeys, on a key with the prefix.
unfoldable pub map_stored :
    ℤ → String → Stored → Entries String → Default → Entries String × Default
unfolding map_mapping store
map_stored now k (item invalid_at value) keys provider =
    (if after invalid_at now then store k value keys else keys, provider)
map_stored now k (bytes b) keys provider = (keys, provider)
map_stored now k (mapper mapping) keys provider = map_mapping now mapping keys provider

unfoldable pub map_entries :
    ℤ → String → Entries Stored → Entries String → Default → Entries String × Default
unfolding map_stored has_prefix cut_prefix
map_entries now prefix [] keys provider = (keys, provider)
map_entries now prefix ((key, value) ∷ m) keys provider =
    let (keys', provider') =
      if has_prefix key prefix
      then map_stored now (cut_prefix key prefix) value keys provider
      else (keys, provider) in
    map_entries now prefix m keys' provider'

unfoldable pub map_keys : ℤ → String → Default → Entries String × Default
unfolding map_entries
map_keys now prefix provider = map_entries now prefix provider.m [] provider

unfoldable pub delete : String → Default → Default
unfolding erase
delete key provider = record provider { m = erase key provider.m }

unfoldable pub set : ℤ → String → String → ℤ → Default → Bool × Default
unfolding store
set now key value duration provider =
    (false, record provider { m = store key (item (now +ℤ duration) value) provider.m })

unfoldable pub reset : Default → Bool × Default
reset provider = (false, record provider { m = [] })

module _ (lib : Library) where
  -- The inner loop of ListKeys: live keys are listed, the others are deleted.
  unfoldable pub list_mapping : ℤ → StorageMapper → Default → List String × Default
  unfolding delete
  list_mapping now [] provider = ([], provider)
  list_mapping now ((_, v) ∷ mapping) provider =
      let live = after v.stale_time now in
      let (keys, provider') =
        list_mapping now mapping (if live then provider else delete v.real_key provider) in
      (if live then v.real_key ∷ keys else keys, provider')

  abbrev list_decoded : ℤ → Option StorageMapper → Default → List String × Default
  list_decoded now none provider = ([], provider)
  list_decoded now (some mapping) provider = list_mapping now mapping provider

  -- One round of the Range in ListKeys: value.([]byte) panics on another type.
  unfoldable pub list_stored : ℤ → Stored → Default → Option (List String × Default)
  unfolding list_mapping
  list_stored now (bytes b) provider = some (list_decoded now (lib.decode_mapping b) provider)
  list_stored now (item invalid_at value) provider = none
  list_stored now (mapper mapping) provider = none

  unfoldable pub list_entries : ℤ → Entries Stored → Default → Option (List String × Default)
  unfolding list_stored has_prefix
  list_entries now [] provider = some ([], provider)
  list_entries now ((key, value) ∷ m) provider =
      elim (if has_prefix key mapping_key_prefix
        then list_stored now value provider
        else some ([], provider)) [
          | none ↦ none
          | some (keys, provider') ↦ elim (list_entries now m provider') [
            | none ↦ none
            | some (later, provider'') ↦ some (keys ++ later, provider'')
          ]
        ]

  unfoldable pub list_keys : ℤ → Default → Option (List String × Default)
  unfolding list_entries
  list_keys now provider = list_entries now provider.m provider

  -- The keys that DeleteMany takes away.
  unfoldable pub selected : String → String → Bool
  unfolding has_prefix
  selected pattern current =
      (lib.compiles pattern && lib.matches pattern current) || has_prefix current pattern

  unfoldable pub delete_entries : String → Entries Stored → Default → Default
  unfolding selected delete
  delete_entries pattern [] provider = provider
  delete_entries pattern ((current, _) ∷ m) provider =
      delete_entries pattern m
        (if selected pattern current then delete current provider else provider)

  unfoldable pub delete_many : String → Default → Default
  unfolding delete_entries
  delete_many pattern provider = delete_entries pattern provider.m provider

  abbrev elected :
      ℤ → Request → Revalidator → Default → Option Stored → Option (Candidates × Default)
  elected now req validator provider none =
      some (record { fresh = none; stale = none; validator = validator }, provider)
  elected now req validator provider (some (bytes b)) =
      some (lib.mapping_election (get now) now b req validator provider)
  elected now req validator provider (some (item _ _)) = none
  elected now req validator provider (some (mapper _)) = none

  unfoldable pub get_multi_level :
      ℤ → String → Request → Revalidator → Default → Option (Candidates × Default)
  unfolding load
  get_multi_level now key req validator provider =
      elected now req validator provider (load (mapping_key_prefix <> key) provider.m)

  -- The bytes that stand under the mapping's key; item.([]byte) panics on another type.
  abbrev mapping_bytes : Option Stored → Option String
  mapping_bytes none = some ""
  mapping_bytes (some (bytes b)) = some b
  mapping_bytes (some _) = none

  abbrev write_mapping : String → Option String → Default → Bool × Default
  write_mapping mapping_key none provider = (true, provider)
  write_mapping mapping_key (some val) provider =
      (false, record provider { m = store mapping_key (bytes val) provider.m })

  -- The second half of SetMultiLevel, once the value is stored.
  unfoldable pub update_mapping :
      ℤ → String → String → Header → String → ℤ → String → Default → Option (Bool × Default)
  unfolding load store add_duration ◌+ℤ◌
  update_mapping now base_key varied_key varied_headers etag duration real_key provider =
      let mapping_key = mapping_key_prefix <> base_key in
      elim (mapping_bytes (load mapping_key provider.m)) [
        | none ↦ none
        | some val ↦ some (
            write_mapping mapping_key
              (lib.mapping_updater varied_key val now (now +ℤ duration)
                (now +ℤ add_duration duration provider.stale) varied_headers etag real_key)
              provider)
      ]

  unfoldable pub set_multi_level :
      ℤ
      → String
      → String
      → String
      → Header
      → String
      → ℤ
      → String
      → Default
      → Option (Bool × Default)
  unfolding update_mapping store add_duration ◌+ℤ◌
  set_multi_level now base_key varied_key value varied_headers etag duration real_key provider =
      elim (lib.compress value) [
        | none ↦ some (true, provider)
        | some compressed ↦
            update_mapping now base_key varied_key varied_headers etag duration real_key
              (record provider {
                m =
                    store varied_key (item (now +ℤ add_duration duration provider.stale) compressed)
                      provider.m;
              })
      ]

  -- The provider as a Storer.
  abbrev pub default_storer : Storer Default
  default_storer = record {
    name = λ _. default_storage_name;
    uuid = λ _. "";
    map_keys = map_keys;
    list_keys = list_keys;
    get = get;
    set = set;
    delete = delete;
    delete_many = delete_many;
    reset = reset;
    get_multi_level = get_multi_level;
    set_multi_level = set_multi_level;
  }
