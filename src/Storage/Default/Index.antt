-- ===== src/Storage/Default/Index.antt =====
-- The index of the storage in memory: what GetMultiLevel finds after SetMultiLevel and after Delete.
use mathlib.Core.Path.{subst}
use souin.Prelude.{
  eq_refl, String, ◌≡◌, ◌≢◌, refl, ◌∙◌, Bool, true, false, Option, Option-cases, none, some, [],
  inl, inr, eq_iff, arith,
}
use souin.Prelude.Int.{+ℤ_parts, ℤ, ◌≤ℤ◌, ◌+ℤ◌, ltb_ℤ}
use souin.Text.{◌<>◌}
use souin.Clock.{add_duration}
use souin.Http.{Request, Response}
use souin.Http.Headers.{Header}
use souin.Entries.{load, store, erase, load-store, load-erase}
use souin.Storage.{Candidates, Revalidator, mapping_key_prefix}
use souin.Storage.Contract.{AgreesWith, IndexLaws}
use souin.Storage.Default.{
  item, bytes, Default, Library, default_storer, get, delete, update_mapping, get_multi_level,
  set_multi_level,
}
use souin.Storage.Default.Laws.{get-shown}

-- What core.MappingElection does with an index that core.MappingUpdater has made for one variant: if
-- the request has its values and brings no ETag, and the variant is fresh, it reads the value of the
-- key.
pub record ElectionLaws (lib : Library) : Type 0 where
  pub read : String → Request → Option Response
  pub elects :
      (lookup : String → Default → String × Default) (p : Default) (now later fresh stale : ℤ)
      (key value compressed etag real index : String) (varied : Header) (req : Request)
      (v : Revalidator)
      → lib.compress value ≡ some compressed
      → lib.mapping_updater key "" now fresh stale varied etag real ≡ some index
      → AgreesWith varied req
      → v.request_etags ≡ []
      → ltb_ℤ later fresh ≡ true
      → (lookup key p).0 ≡ compressed
      → (lib.mapping_election lookup later index req v p).0.fresh ≡ read value req

not_failed :
    (p p' : Default) → Path (Option (Bool × Default)) (some (true, p)) (some (false, p')) → ⊥
not_failed p p' e = cc

succeeded :
    (p p' : Default) → Path (Option (Bool × Default)) (some (false, p)) (some (false, p')) → p ≡ p'
succeeded p p' e = cc

module _ (lib : Library) (laws : ElectionLaws lib) where
  -- No index stands under the base key, the varied key is not that of the index, and the time to keep
  -- stale responses only adds to the duration.
  abbrev pub IsFree : String → String → ℤ → Default → Type 0
  IsFree base key duration p =
      (load (mapping_key_prefix <> base) p.m ≡ none)
      × (key ≢ mapping_key_prefix <> base)
      × (duration ≤ℤ add_duration duration p.stale)

  -- The state that a successful insertion leaves.
  abbrev inserted : ℤ → String → String → String → String → ℤ → Default → Default
  inserted now base key compressed index duration p = record p {
    m =
        store (mapping_key_prefix <> base) (bytes index)
          (store key (item (now +ℤ add_duration duration p.stale) compressed) p.m);
  }

  get-inserted :
      (now later : ℤ) (base key compressed index : String) (duration : ℤ) (p : Default)
      → IsFree base key duration p
      → ltb_ℤ later (now +ℤ duration) ≡ true
      → (get later key (inserted now base key compressed index duration p)).0 ≡ compressed
  get-inserted now later base key compressed index duration p (none_yet, other, longer) early =
      let p' = inserted now base key compressed index duration p in
      let kept : load key p'.m ≡ some (item (now +ℤ add_duration duration p.stale) compressed) =
        ground (
          arith,
          load-store (mapping_key_prefix <> base) key (bytes index)
              (store key (item (now +ℤ add_duration duration p.stale) compressed) p.m),
          load-store key key (item (now +ℤ add_duration duration p.stale) compressed) p.m,
          eq_iff (mapping_key_prefix <> base) key,
          eq_iff key key,
        ) in
      let alive : ltb_ℤ later (now +ℤ add_duration duration p.stale) ≡ true =
        ground (arith, +ℤ_parts now duration, +ℤ_parts now (add_duration duration p.stale)) in
      get-shown later key p' ∙ rw (kept, alive) refl

  pub get_set_multi_level :
      (now later : ℤ) (base key value etag real : String) (varied : Header) (duration : ℤ)
      (req : Request) (v : Revalidator) (p p' : Default)
      → IsFree base key duration p
      → set_multi_level lib now base key value varied etag duration real p ≡ some (false, p')
      → AgreesWith varied req
      → v.request_etags ≡ []
      → ltb_ℤ later (now +ℤ duration) ≡ true
      → (c : Candidates) × (p'' : Default) × (get_multi_level lib later base req v p'
          ≡ some (c, p''))
        × (c.fresh ≡ laws.read value req)
  unfolding set_multi_level update_mapping get_multi_level
  get_set_multi_level now later base key value etag real varied duration req v p p' free set agrees
        bare early =
      let unset : (c : String)
          → load (mapping_key_prefix <> base)
              (store key (item (now +ℤ add_duration duration p.stale) c) p.m)
            ≡ none =
        λ c. ground (
          arith,
          load-store key (mapping_key_prefix <> base)
              (item (now +ℤ add_duration duration p.stale) c) p.m,
          eq_iff key (mapping_key_prefix <> base),
          free.0,
          free.1,
        ) in
      elim (Option-cases (lib.compress value)) [
        | inl e ↦ absurd (ground arith)
        | inr (compressed, e) ↦
            elim (Option-cases (
              lib.mapping_updater key "" now (now +ℤ duration)
                (now +ℤ add_duration duration p.stale) varied etag real)) [
                  | inl e' ↦ absurd (
                      not_failed _ p'
                        (rw (e, set_multi_level, update_mapping, unset compressed, e') at set))
                  | inr (index, e') ↦
                      let p'' = inserted now base key compressed index duration p in
                      let same : p'' ≡ p' =
                        succeeded p'' p'
                          (rw (e, set_multi_level, update_mapping, unset compressed, e') at set) in
                      let there : load (mapping_key_prefix <> base) p''.m ≡ some (bytes index) =
                        load-store (mapping_key_prefix <> base) (mapping_key_prefix <> base)
                          (bytes index) _
                        ∙ rw (eq_refl (mapping_key_prefix <> base)) refl in
                      let (c, p''') = lib.mapping_election (get later) later index req v p'' in
                      subst
                        (λ q.
                          (c : Candidates) × (r : Default) × (get_multi_level lib later base req v q
                            ≡ some (c, r))
                          × (c.fresh ≡ laws.read value req))
                        same
                        (
                          c,
                          p''',
                          rw (get_multi_level, there) refl,
                          laws.elects (get later) p'' now later (now +ℤ duration)
                              (now +ℤ add_duration duration p.stale) key value compressed etag real
                              index varied req v e e' agrees bare early
                              (get-inserted now later base key compressed index duration p free
                                early),
                        )
                ]
      ]

  pub get_delete_multi_level :
      (later : ℤ) (base : String) (req : Request) (v : Revalidator) (p : Default)
      → get_multi_level lib later base req v (delete (mapping_key_prefix <> base) p)
        ≡ some (
          record { fresh = none; stale = none; validator = v },
          delete (mapping_key_prefix <> base) p,
        )
  unfolding get_multi_level delete
  get_delete_multi_level later base req v p =
      let gone : load (mapping_key_prefix <> base) (erase (mapping_key_prefix <> base) p.m) ≡ none =
        load-erase (mapping_key_prefix <> base) (mapping_key_prefix <> base) p.m
        ∙ rw (eq_refl (mapping_key_prefix <> base)) refl in
      rw (get_multi_level, gone) refl

  unfoldable pub default_storer-IndexLaws : IndexLaws (default_storer lib)
  default_storer-IndexLaws = record {
    read = laws.read;
    IsFree = λ base key duration p. IsFree base key duration p;
    get_set_multi_level = get_set_multi_level;
    get_delete_multi_level = get_delete_multi_level;
  }
