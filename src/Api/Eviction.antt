-- ===== src/Api/Eviction.antt =====
-- EvictMapping and purgeMapping of pkg/api/souin.go.
pub mod Kept
use souin.Prelude.{
  String, Bool, true, false, ◌||◌, ◌&&◌, not, Option, none, some, List, [], ◌∷◌, ◌==◌,
  if◌then◌else◌,
}
use souin.Prelude.Int.{ℤ, pos, ltb_ℤ}
use souin.Text.{◌<>◌}
use souin.Clock.{sub_time}
use souin.Entries.{Entries}
use souin.Storage.{Storer, KeyIndex, StorageMapper, mapping_key_prefix}
use souin.Surrogate.{infinite_ttl}
use souin.Api.{ApiLibrary, SouinApi, encoded}

-- Both times of an entry are past.
unfoldable pub is_past : ℤ → KeyIndex → Bool
is_past now v =
    ltb_ℤ (pos 0) (sub_time now v.fresh_time) && ltb_ℤ (pos 0) (sub_time now v.stale_time)

module _ {S : Type 0} (current : Storer S) where
  -- The inner loop: what stays of the mapping, and the storage.
  unfoldable pub evict_entries : ℤ → StorageMapper → S → StorageMapper × S
  evict_entries now [] s = ([], s)
  evict_entries now ((key, val) ∷ mapping) s =
      let evicted = current.delete val.real_key (current.delete key s) in
      let (rest, s') = evict_entries now mapping (if is_past now val then evicted else s) in
      (if is_past now val then rest else (key, val) ∷ rest, s')

  abbrev is_updated : ℤ → StorageMapper → Bool
  is_updated now [] = false
  is_updated now ((key, val) ∷ mapping) = is_past now val || is_updated now mapping

  abbrev is_nil : StorageMapper → Bool
  is_nil [] = true
  is_nil (_ ∷ _) = false

  -- The end of a round, for a mapping that is decoded.
  unfoldable pub evict_decoded : ApiLibrary → ℤ → ℤ → String → StorageMapper → S → S
  evict_decoded lib now duration k mapping s =
      let (rest, s') = evict_entries now mapping s in
      let value = lib.marshal rest in
      let s'' : S = elim value [
        | none ↦ current.delete (mapping_key_prefix <> k) s'
        | some _ ↦ s'
      ] in
      let written =
        if is_updated now mapping
        then (current.set now (mapping_key_prefix <> k) (encoded value) duration s'').1
        else s' in
      if is_nil rest then current.delete (mapping_key_prefix <> k) written else written

  -- The loop over the mappings of the storage.
  unfoldable pub evict_mappings : ApiLibrary → ℤ → ℤ → Entries String → S → S
  evict_mappings lib now duration [] s = s
  evict_mappings lib now duration ((k, v) ∷ values) s =
      let (failed, mapping) = lib.unmarshal v in
      evict_mappings lib now duration values (
        if failed
        then current.delete (mapping_key_prefix <> k) s
        else evict_decoded lib now duration k mapping s)

  -- EvictMapping
  unfoldable pub evict_mapping : ApiLibrary → ℤ → S → S
  evict_mapping lib now s =
      let (values, s') = current.map_keys now mapping_key_prefix s in
      evict_mappings lib now (infinite_ttl (current.name s')) values s'

-- purgeMapping
unfoldable pub purge_mapping : {S : Type 0} → ApiLibrary → ℤ → List (Storer S) → S → S
purge_mapping lib now [] s = s
purge_mapping lib now (current ∷ storers) s =
    purge_mapping lib now storers (evict_mapping current lib now s)
