-- ===== src/Storage/Default/Invariant.antt =====
-- The keys with the mapping prefix hold encoded mappings, the others items. With that the type
-- assertions of the storage in memory do not panic, and every operation keeps it.
use Prim.Native.String.{[], ◌∷◌}
use mathlib.Core.Path.{subst}
use text.Mathlib.TextLemmas.{cons-append}
use souin.Prelude.{
  String, ◌≡◌, ◌≢◌, refl, ◌⊎◌, inl, inr, Bool-cases, Bool, true, false, Option, Option-cases, none,
  some, [], ◌∷◌, ◌==◌, eq_iff, All, arith, if◌then◌else◌,
}
use souin.Prelude.Int.{ℤ}
use souin.Http.{Request}
use souin.Http.Headers.{Header}
use souin.Entries.{Entries, load, store, erase}
use souin.Text.{◌<>◌, has_prefix}
use souin.Storage.{mapping_key_prefix, Revalidator, StorageMapper}
use souin.Storage.Default.{
  Stored, item, bytes, mapper, Default, Library, after, get_stored, get, set, delete, selected,
  delete_entries, delete_many, write_mapping, update_mapping, set_multi_level, list_decoded,
  list_mapping, list_entries, list_keys, get_multi_level,
}

abbrev pub IsProper : String × Stored → Type 0
IsProper (k, item t v) = has_prefix k mapping_key_prefix ≡ false
IsProper (k, bytes b) = has_prefix k mapping_key_prefix ≡ true
IsProper (k, mapper l) = ⊥

abbrev pub IsWellFormed : Default → Type 0
IsWellFormed p = All IsProper p.m

pub has_prefix-append : (p s : String) → has_prefix (p <> s) p ≡ true
unfolding has_prefix
has_prefix-append [] s = refl
has_prefix-append (c ∷ p) s = rw cons-append (ground (arith, has_prefix-append p s))

module _ {V : Type 0} (P : String × V → Type 0) where
  store-All : (k : String) (v : V) (m : Entries V) → P (k, v) → All P m → All P (store k v m)
  unfolding store
  store-All k v [] p h = (p, tt)
  store-All k v ((j, w) ∷ m) p h = go (j == k) (store-All k v m p h.1)
    where
      go : (b : Bool) → All P (store k v m) → All P (if b then (k, v) ∷ m else (j, w) ∷ store k v m)
      go true r = (p, h.1)
      go false r = (h.0, r)

  erase-All : (k : String) (m : Entries V) → All P m → All P (erase k m)
  unfolding erase
  erase-All k [] h = tt
  erase-All k ((j, w) ∷ m) h = go (j == k) (erase-All k m h.1)
    where
      go : (b : Bool) → All P (erase k m) → All P (if b then erase k m else (j, w) ∷ erase k m)
      go true r = r
      go false r = (h.0, r)

  load-All : (k : String) (v : V) (m : Entries V) → load k m ≡ some v → All P m → P (k, v)
  unfolding load
  load-All k v [] e h = cc
  load-All k v ((j, w) ∷ m) e h = elim (Bool-cases (j == k)) [
    | inl match_ ↦ let p : (j, w) ≡ (k, v) = ground (arith, eq_iff j k) in subst P p h.0
    | inr other ↦ load-All k v m (ground arith) h.1
  ]

-- Under a key with the prefix stand bytes or nothing.
index-bytes :
    (k : String) (p : Default)
    → has_prefix k mapping_key_prefix ≡ true
    → IsWellFormed p
    → (load k p.m ≡ none) ⊎ ((b : String) × (load k p.m ≡ some (bytes b)))
index-bytes k p h w = elim (Option-cases (load k p.m)) [
  | inl missing ↦ inl missing
  | inr (v, e) ↦ go v e (load-All IsProper k v p.m e w)
]
  where
    go :
        (v : Stored)
        → load k p.m ≡ some v
        → IsProper (k, v)
        → (load k p.m ≡ none) ⊎ ((b : String) × (load k p.m ≡ some (bytes b)))
    go (item t v) e proper = cc
    go (bytes b) e proper = inr (b, e)
    go (mapper l) e proper = absurd proper

if-IsWellFormed :
    (b : Bool) (p q : Default) → IsWellFormed p → IsWellFormed q → IsWellFormed (if b then p else q)
if-IsWellFormed true p q w w' = w
if-IsWellFormed false p q w w' = w'

pub set-IsWellFormed :
    (now : ℤ) (k value : String) (duration : ℤ) (p : Default)
    → has_prefix k mapping_key_prefix ≡ false
    → IsWellFormed p
    → IsWellFormed (set now k value duration p).1
unfolding set
set-IsWellFormed now k value duration p h w = store-All IsProper k _ p.m h w

pub delete-IsWellFormed : (k : String) (p : Default) → IsWellFormed p → IsWellFormed (delete k p)
unfolding delete
delete-IsWellFormed k p w = erase-All IsProper k p.m w

pub get-IsWellFormed :
    (now : ℤ) (k : String) (p : Default) → IsWellFormed p → IsWellFormed (get now k p).1
unfolding get
get-IsWellFormed now k p w = go (load k p.m)
  where
    go : (o : Option Stored) → IsWellFormed (get_stored now k o p).1
    go none = w
    go (some (item t v)) = elim (Bool-cases (after t now)) [
      | inl live ↦ rw live w
      | inr dead ↦ rw dead (erase-All IsProper k p.m w)
    ]
    go (some (bytes b)) = w
    go (some (mapper l)) = w

module _ (lib : Library) where
  delete_entries-IsWellFormed :
      (pattern : String) (m : Entries Stored) (p : Default)
      → IsWellFormed p
      → IsWellFormed (delete_entries lib pattern m p)
  unfolding delete_entries
  delete_entries-IsWellFormed pattern [] p w = w
  delete_entries-IsWellFormed pattern ((k, v) ∷ m) p w =
      delete_entries-IsWellFormed pattern m (if selected lib pattern k then delete k p else p)
        (if-IsWellFormed (selected lib pattern k) (delete k p) p (delete-IsWellFormed k p w) w)

  pub delete_many-IsWellFormed :
      (pattern : String) (p : Default) → IsWellFormed p → IsWellFormed (delete_many lib pattern p)
  unfolding delete_many
  delete_many-IsWellFormed pattern p w = delete_entries-IsWellFormed pattern p.m p w

  list_mapping-IsWellFormed :
      (now : ℤ) (l : StorageMapper) (p : Default)
      → IsWellFormed p
      → IsWellFormed (list_mapping lib now l p).1
  unfolding list_mapping
  list_mapping-IsWellFormed now [] p w = w
  list_mapping-IsWellFormed now ((k, v) ∷ l) p w =
      let live = after v.stale_time now in
      list_mapping-IsWellFormed now l (if live then p else delete v.real_key p)
        (if-IsWellFormed live p (delete v.real_key p) w (delete-IsWellFormed v.real_key p w))

  -- ListKeys does not panic on well-formed entries.
  list_entries-ne-none :
      (now : ℤ) (m : Entries Stored) (p : Default)
      → All IsProper m
      → list_entries lib now m p ≢ none
  unfolding list_entries
  list_entries-ne-none now [] p w = cc
  list_entries-ne-none now ((k, item t v) ∷ m) p w =
      ground (arith, list_entries-ne-none now m p w.1)
  list_entries-ne-none now ((k, bytes b) ∷ m) p w = ground (
    arith,
    list_entries-ne-none now m p w.1,
    list_entries-ne-none now m (list_decoded lib now (lib.decode_mapping b) p).1 w.1,
  )
  list_entries-ne-none now ((k, mapper l) ∷ m) p w = absurd w.0

  -- On well-formed entries, GetMultiLevel does not panic.
  pub get_multi_level-ne-none :
      (now : ℤ) (key : String) (req : Request) (validator : Revalidator) (p : Default)
      → IsWellFormed p
      → get_multi_level lib now key req validator p ≢ none
  unfolding get_multi_level
  get_multi_level-ne-none now key req validator p w =
      elim (index-bytes (mapping_key_prefix <> key) p (has_prefix-append mapping_key_prefix key)
        w) [ inl e ↦ rw e (cc) | inr (b, e) ↦ rw e (cc) ]

  write_mapping-IsWellFormed :
      (k : String) (o : Option String) (p : Default)
      → has_prefix k mapping_key_prefix ≡ true
      → IsWellFormed p
      → IsWellFormed (write_mapping lib k o p).1
  write_mapping-IsWellFormed k none p h w = w
  write_mapping-IsWellFormed k (some b) p h w = store-All IsProper k (bytes b) p.m h w

  -- What SetMultiLevel returns when it does not panic, and that the entries stay well-formed.
  abbrev pub Sets : Option (Bool × Default) → Type 0
  Sets none = ⊥
  Sets (some (failed, q)) = IsWellFormed q

  update_mapping-Sets :
      (now : ℤ) (base_key varied_key : String) (varied_headers : Header) (etag : String)
      (duration : ℤ) (real_key : String) (p : Default)
      → IsWellFormed p
      → Sets (update_mapping lib now base_key varied_key varied_headers etag duration real_key p)
  unfolding update_mapping
  update_mapping-Sets now base_key varied_key varied_headers etag duration real_key p w =
      elim (index-bytes (mapping_key_prefix <> base_key) p
        (has_prefix-append mapping_key_prefix base_key) w) [
          | inl e ↦
              rw (e, update_mapping)
                (write_mapping-IsWellFormed _ _ p (has_prefix-append mapping_key_prefix base_key) w)
          | inr (b, e) ↦
              rw (e, update_mapping)
                (write_mapping-IsWellFormed _ _ p (has_prefix-append mapping_key_prefix base_key) w)
        ]

  -- SetMultiLevel under a key without the mapping prefix does not panic and keeps the entries
  -- well-formed, whether it fails or not.
  pub set_multi_level-Sets :
      (now : ℤ) (base_key varied_key value : String) (varied_headers : Header) (etag : String)
      (duration : ℤ) (real_key : String) (p : Default)
      → has_prefix varied_key mapping_key_prefix ≡ false
      → IsWellFormed p
      → Sets (
          set_multi_level lib now base_key varied_key value varied_headers etag duration real_key p)
  unfolding set_multi_level
  set_multi_level-Sets now base_key varied_key value varied_headers etag duration real_key p h w =
      elim (Option-cases (lib.compress value)) [
        | inl e ↦ rw (e, set_multi_level, Sets) w
        | inr (c, e) ↦
            rw (e, set_multi_level, Sets)
              (update_mapping-Sets now base_key varied_key varied_headers etag duration real_key _
                (store-All IsProper varied_key _ p.m h w))
      ]

  -- On well-formed entries, ListKeys does not panic.
  pub list_keys-ne-none : (now : ℤ) (p : Default) → IsWellFormed p → list_keys lib now p ≢ none
  unfolding list_keys
  list_keys-ne-none now p w = list_entries-ne-none now p.m p w
