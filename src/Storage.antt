-- ===== src/Storage.antt =====
-- pkg/storage/types/types.go: the contract of a storage, and the index that the storages share.
pub mod Contract
pub mod Default
use souin.Prelude.{String, Bool, Option, List, ◌*◌}
use souin.Prelude.Int.{ℤ, pos}
use souin.Entries.{Entries}
use souin.Clock.{second}
use souin.Http.{Request, Response}
use souin.Http.Headers.{Header}

abbrev pub default_storage_name : String
default_storage_name = "DEFAULT"

abbrev pub one_year_duration : ℤ
one_year_duration = pos (365 * 24 * 3600 * second)

-- core.MappingKeyPrefix
abbrev pub mapping_key_prefix : String
mapping_key_prefix = "IDX_"

-- core.KeyIndex and core.StorageMapper: the records of an index entry.
pub record KeyIndex : Type 0 where
  pub stored_at : ℤ
  pub fresh_time : ℤ
  pub stale_time : ℤ
  pub varied_headers : Header
  pub etag : String
  pub real_key : String

abbrev pub StorageMapper : Type 0
StorageMapper = List (String × KeyIndex)

-- core.Revalidator, filled by rfc.ParseRequest and by the election of a candidate.
pub record Revalidator : Type 0 where
  pub matched : Bool
  pub if_none_match_present : Bool
  pub if_modified_since_present : Bool
  pub if_unmodified_since_present : Bool
  pub need_revalidation : Bool
  pub not_modified : Bool
  pub if_modified_since : Option ℤ
  pub if_unmodified_since : Option ℤ
  pub if_none_match : List String
  pub request_etags : List String
  pub response_etag : String

-- The candidates for a key: a fresh and a stale response, and the validator after the election.
pub record Candidates : Type 0 where
  pub fresh : Option Response
  pub stale : Option Response
  pub validator : Revalidator

-- The interface Storer over the states of the storages. The first argument of an operation that
-- reads the clock is the time. `none` is a panic; of an error only
-- that there is one is kept, as `true`.
pub record Storer (S : Type 0) : Type 0 where
  pub name : S → String
  pub uuid : S → String
  pub map_keys : ℤ → String → S → Entries String × S
  pub list_keys : ℤ → S → Option (List String × S)
  pub get : ℤ → String → S → String × S
  -- the error, key, value and duration of Set
  pub set : ℤ → String → String → ℤ → S → Bool × S
  pub delete : String → S → S
  pub delete_many : String → S → S
  pub reset : S → Bool × S
  pub get_multi_level : ℤ → String → Request → Revalidator → S → Option (Candidates × S)
  pub set_multi_level :
      ℤ → String → String → String → Header → String → ℤ → String → S → Option (Bool × S)
