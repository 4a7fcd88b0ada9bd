-- ===== src/Api.antt =====
-- pkg/api/souin.go: the administration of the storages. The state holds all storages. Of package
-- proto, the definitions take the decoder and the encoder of a mapping; a mapping that does not
-- decode comes with an error and with what was read of it.
pub mod Eviction
pub mod Invalidation
pub mod Handle
pub mod Purging
pub mod Endpoints
use souin.Prelude.{
  String, Bool, true, false, ◌||◌, ◌&&◌, not, Option, none, some, List, [], ◌∷◌, ◌++◌, ◌==◌, ◌>>=◌,
  keep, if◌then◌else◌,
}
use souin.Prelude.Int.{ℤ}
use souin.Text.{◌<>◌, cut_prefix}
use souin.Storage.{Storer, KeyIndex, StorageMapper, mapping_key_prefix}
use souin.Surrogate.{infinite_ttl}

-- The package proto, on mappings, and the package regexp.
pub record ApiLibrary : Type 0 where
  pub unmarshal : String → Bool × StorageMapper
  pub marshal : StorageMapper → Option String
  pub compiles : String → Bool
  pub matches : String → String → Bool

pub record SouinApi (S : Type 0) : Type 0 where
  pub base_path : String
  pub enabled : Bool
  pub storers : List (Storer S)

-- initializeSouin; the methods that it reads are used by nothing.
unfoldable pub initialize_souin : {S : Type 0} → String → Bool → List (Storer S) → SouinApi S
initialize_souin base_path enabled storers = record {
  base_path = if base_path == "" then "/souin" else base_path;
  enabled = enabled;
  storers = storers;
}

-- The value that Set gets for a mapping: a mapping that does not encode gives no bytes.
abbrev pub encoded : Option String → String
encoded none = ""
encoded (some v) = v

-- v.FreshTime = now, for each entry
unfoldable pub expire : ℤ → StorageMapper → StorageMapper
expire now [] = []
expire now ((k, v) ∷ mapping) = (k, record v { fresh_time = now }) ∷ expire now mapping

module _ {S : Type 0} where
  unfoldable pub delete_keys : Storer S → StorageMapper → S → S
  delete_keys current [] s = s
  delete_keys current ((k, _) ∷ mapping) s = delete_keys current mapping (current.delete k s)

  -- BulkDelete, for the mapping of a storer that is not empty.
  unfoldable pub delete_mapped : ApiLibrary → ℤ → String → Bool → String → Storer S → S → S
  delete_mapped lib now key purge b current s =
      let (failed, mapping) = lib.unmarshal b in
      let s' = if failed then s else delete_keys current mapping s in
      let value = lib.marshal (expire now mapping) in
      let s'' : S = elim value [
        | none ↦ current.delete (mapping_key_prefix <> key) s'
        | some _ ↦ s'
      ] in
      if purge
      then s'
      else (current.set now (mapping_key_prefix <> key) (encoded value)
          (infinite_ttl (current.name s'')) s'').1

  -- BulkDelete, for one storer.
  unfoldable pub bulk_delete_in : ApiLibrary → ℤ → String → Bool → Storer S → S → S
  bulk_delete_in lib now key purge current s =
      let (b, s') = current.get now (mapping_key_prefix <> key) s in
      let mapped = if b == "" then s' else delete_mapped lib now key purge b current s' in
      let purged = if purge then current.delete (mapping_key_prefix <> key) mapped else mapped in
      current.delete key purged

  unfoldable pub bulk_delete_all : ApiLibrary → ℤ → String → Bool → List (Storer S) → S → S
  bulk_delete_all lib now key purge [] s = s
  bulk_delete_all lib now key purge (current ∷ storers) s =
      bulk_delete_all lib now key purge storers (bulk_delete_in lib now key purge current s)

  -- (*SouinAPI).Delete
  unfoldable pub delete_in : ApiLibrary → String → List (Storer S) → S → S
  delete_in lib key [] s = s
  delete_in lib key (current ∷ storers) s =
      delete_in lib key storers
        (if lib.compiles key then current.delete_many key s else current.delete key s)

  -- (*SouinAPI).BulkDelete
  unfoldable pub bulk_delete : ApiLibrary → ℤ → String → Bool → SouinApi S → S → S
  bulk_delete lib now key purge api s =
      let key' = cut_prefix key mapping_key_prefix in
      delete_in lib key' api.storers (bulk_delete_all lib now key' purge api.storers s)

  -- GetAll; `none` is a panic of a storer.
  unfoldable pub get_all : ℤ → List (Storer S) → S → Option (List String × S)
  get_all now [] s = some ([], s)
  get_all now (current ∷ storers) s = do
    (keys, s') ← current.list_keys now s
    (later, s'') ← get_all now storers s'
    some (keys ++ later, s'')

  -- listKeys
  unfoldable pub list_keys : ApiLibrary → ℤ → String → SouinApi S → S → Option (List String × S)
  list_keys lib now search api s =
      let found : Option (List String × S) =
        (get_all now api.storers s >>= (λ (keys, s'). some (keep (lib.matches search) keys, s'))) in
      if lib.compiles search then found else some ([], s)
