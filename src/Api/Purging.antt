-- ===== src/Api/Purging.antt =====
-- What a purge by BulkDelete of pkg/api/souin.go leaves.
use souin.Prelude.{
  String, ◌≡◌, ◌≢◌, ap, sym, ◌∙◌, Bool, true, false, [], ◌∷◌, ◌==◌, any, eq_iff, eq_refl, arith,
  Bool-cases, inl, inr,
}
use souin.Prelude.Int.{ℤ}
use souin.Text.{◌<>◌, cut_prefix}
use souin.Storage.{Storer, StorageMapper, mapping_key_prefix}
use souin.Storage.Contract.{StorerLaws}
use souin.Api.{
  ApiLibrary, SouinApi, delete_keys, delete_mapped, bulk_delete_in, bulk_delete_all, delete_in,
  bulk_delete,
}

abbrev pub is_mapped : String → StorageMapper → Bool
is_mapped j mapping = any (λ (k, _). k == j) mapping

module _ {S : Type 0} (st : Storer S) (laws : StorerLaws st) (later : ℤ) where
  -- A key reads as absent.
  abbrev pub Gone : String → S → Type 0
  Gone j s = (st.get later j s).0 ≡ ""

  Gone-delete : (k j : String) (s : S) → Gone j s → Gone j (st.delete k s)
  Gone-delete k j s h = ground (arith, laws.get_delete later k j s)

  delete-Gone : (k : String) (s : S) → Gone k (st.delete k s)
  delete-Gone k s = ground (arith, laws.get_delete later k k s, eq_refl k)

  Gone-delete_keys :
      (j : String) (mapping : StorageMapper) (s : S) → Gone j s → Gone j (delete_keys st mapping s)
  unfolding delete_keys
  Gone-delete_keys j [] s h = h
  Gone-delete_keys j ((k, v) ∷ mapping) s h =
      Gone-delete_keys j mapping (st.delete k s) (Gone-delete k j s h)

  delete_keys-Gone :
      (j : String) (mapping : StorageMapper) (s : S)
      → is_mapped j mapping ≡ true
      → Gone j (delete_keys st mapping s)
  unfolding delete_keys
  delete_keys-Gone j [] s h = ground arith
  delete_keys-Gone j ((k, v) ∷ mapping) s h = elim (Bool-cases (k == j)) [
    | inl e ↦
        Gone-delete_keys j mapping (st.delete k s)
          (ap (λ i. (st.get later i (st.delete k s)).0) (sym ((eq_iff k j).0 e)) ∙ delete-Gone k s)
    | inr e ↦ delete_keys-Gone j mapping (st.delete k s) (ground arith)
  ]

  -- The storage after the deletions for the mapping, in a purge.
  Gone-after_mapping :
      (lib : ApiLibrary) (now : ℤ) (key b j : String) (s : S)
      → (lib.unmarshal b).0 ≡ false
      → is_mapped j (lib.unmarshal b).1 ≡ true
      → Gone j (delete_mapped lib now key true b st s)
  unfolding delete_mapped
  Gone-after_mapping lib now key b j s decoded mapped =
      rw decoded (delete_keys-Gone j (lib.unmarshal b).1 s mapped)

  purged_in :
      (lib : ApiLibrary) (now : ℤ) (key : String) (s : S)
      → Gone key (bulk_delete_in lib now key true st s)
        × Gone (mapping_key_prefix <> key) (bulk_delete_in lib now key true st s)
  unfolding bulk_delete_in
  purged_in lib now key s = (
    delete-Gone key _,
    Gone-delete key (mapping_key_prefix <> key) _ (delete-Gone (mapping_key_prefix <> key) _),
  )

  mapped_in :
      (lib : ApiLibrary) (now : ℤ) (key j : String) (s : S)
      → (st.get now (mapping_key_prefix <> key) s).0 ≢ ""
      → (lib.unmarshal (st.get now (mapping_key_prefix <> key) s).0).0 ≡ false
      → is_mapped j (lib.unmarshal (st.get now (mapping_key_prefix <> key) s).0).1 ≡ true
      → Gone j (bulk_delete_in lib now key true st s)
  unfolding bulk_delete_in
  mapped_in lib now key j s there decoded mapped =
      let b = (st.get now (mapping_key_prefix <> key) s).0 in
      let s' = (st.get now (mapping_key_prefix <> key) s).1 in
      let shut : (b == "") ≡ false = ground (arith, eq_iff b "") in
      Gone-delete key j _ (
        Gone-delete (mapping_key_prefix <> key) j _
          (rw shut (Gone-after_mapping lib now key b j s' decoded mapped)))

  Gone-delete_in :
      (lib : ApiLibrary) (key j : String) (s : S)
      → Gone j s
      → Gone j (delete_in lib key (st ∷ []) s)
  unfolding delete_in
  Gone-delete_in lib key j s h = elim (Bool-cases (lib.compiles key)) [
    | inl e ↦ rw e (laws.get_delete_many later key j s h)
    | inr e ↦ rw e (Gone-delete key j s h)
  ]

  -- After a purge of a key in the only storage, neither the key nor its index can be read.
  pub bulk_delete-Gone :
      (lib : ApiLibrary) (now : ℤ) (key : String) (api : SouinApi S) (s : S)
      → api.storers ≡ st ∷ []
      → (let key' = cut_prefix key mapping_key_prefix in
          let s' = bulk_delete lib now key true api s in
          Gone key' s' × Gone (mapping_key_prefix <> key') s')
  unfolding bulk_delete bulk_delete_all
  bulk_delete-Gone lib now key api s only =
      let key' = cut_prefix key mapping_key_prefix in
      let s' = bulk_delete_in lib now key' true st s in
      rw only (
        Gone-delete_in lib key' key' s' (purged_in lib now key' s).0,
        Gone-delete_in lib key' (mapping_key_prefix <> key') s' (purged_in lib now key' s).1,
      )

  -- If the index of a key can be read and decodes, then after a purge of the key in the only
  -- storage no key of that index can be read.
  pub bulk_delete_mapped-Gone :
      (lib : ApiLibrary) (now : ℤ) (key j : String) (api : SouinApi S) (s : S)
      → api.storers ≡ st ∷ []
      → (st.get now (mapping_key_prefix <> cut_prefix key mapping_key_prefix) s).0 ≢ ""
      → (lib.unmarshal (st.get now (mapping_key_prefix <> cut_prefix key mapping_key_prefix) s).0).0
        ≡ false
      → is_mapped j
          (lib.unmarshal
            (st.get now (mapping_key_prefix <> cut_prefix key mapping_key_prefix) s).0).1
        ≡ true
      → Gone j (bulk_delete lib now key true api s)
  unfolding bulk_delete bulk_delete_all
  bulk_delete_mapped-Gone lib now key j api s only there decoded mapped =
      let key' = cut_prefix key mapping_key_prefix in
      rw only (
        Gone-delete_in lib key' j (bulk_delete_in lib now key' true st s)
          (mapped_in lib now key' j s there decoded mapped))
