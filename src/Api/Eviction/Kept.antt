-- ===== src/Api/Eviction/Kept.antt =====
-- What the eviction keeps.
use souin.Prelude.{
  String, ◌≡◌, refl, Bool, ◌||◌, ◌&&◌, not, [], ◌∷◌, ◌==◌, any, keep, arith, if◌then◌else◌,
  Bool-cases, inl, inr,
}
use souin.Prelude.Int.{ℤ}
use souin.Storage.{Storer, KeyIndex, StorageMapper}
use souin.Storage.Contract.{StorerLaws}
use souin.Api.Eviction.{is_past, evict_entries}

abbrev pub is_current : ℤ → String × KeyIndex → Bool
is_current now (k, v) = not (is_past now v)

-- The key names an entry whose times are past, or its response.
abbrev pub is_evicted : ℤ → String → StorageMapper → Bool
is_evicted now j mapping = any (λ (k, v). is_past now v && (k == j || v.real_key == j)) mapping

module _ {S : Type 0} (current : Storer S) where
  kept_mapping :
      (now : ℤ) (mapping : StorageMapper) (s : S)
      → (evict_entries current now mapping s).0 ≡ keep (is_current now) mapping
  unfolding evict_entries
  kept_mapping now [] s = refl
  kept_mapping now ((key, val) ∷ mapping) s = elim (Bool-cases (is_past now val)) [
    | inl e ↦
        rw (e, kept_mapping now mapping (current.delete val.real_key (current.delete key s))) refl
    | inr e ↦ rw (e, kept_mapping now mapping s) refl
  ]

  get-evict_entries :
      (laws : StorerLaws current) (now later : ℤ) (j : String) (mapping : StorageMapper) (s : S)
      → (current.get later j (evict_entries current now mapping s).1).0
        ≡ (if is_evicted now j mapping then "" else (current.get later j s).0)
  unfolding evict_entries
  get-evict_entries laws now later j [] s = refl
  get-evict_entries laws now later j ((key, val) ∷ mapping) s =
      elim (Bool-cases (is_past now val)) [
        | inl e ↦
            let deleted = current.delete val.real_key (current.delete key s) in
            rw e (
              ground (
                arith,
                get-evict_entries laws now later j mapping deleted,
                laws.get_delete later val.real_key j (current.delete key s),
                laws.get_delete later key j s,
              ))
        | inr e ↦ rw e (get-evict_entries laws now later j mapping s)
      ]

  -- The eviction keeps, of a mapping, the entries of which one time is not past, in their order; of
  -- the other entries, the key and the response can no longer be read, and every other key reads as
  -- before.
  pub evict_entries_lem :
      (laws : StorerLaws current) (now later : ℤ) (j : String) (mapping : StorageMapper) (s : S)
      → ((evict_entries current now mapping s).0 ≡ keep (is_current now) mapping)
        × ((current.get later j (evict_entries current now mapping s).1).0
            ≡ (if is_evicted now j mapping then "" else (current.get later j s).0))
  evict_entries_lem laws now later j mapping s =
      (kept_mapping now mapping s, get-evict_entries laws now later j mapping s)
