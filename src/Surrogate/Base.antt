-- ===== src/Surrogate/Base.antt =====
-- baseStorage of pkg/surrogate/providers/common.go: the tags in a storage.
use souin.Prelude.{
  String, Bool, true, ◌||◌, not, Option, none, some, List, [], ◌∷◌, ◌++◌, ◌==◌, any, or_else,
  if◌then◌else◌,
}
use souin.Prelude.Int.{ℤ}
use souin.Text.{◌<>◌, split}
use souin.Text.Escape.{query_escape}
use souin.Http.Headers
use souin.Http.Headers.{Header}
use souin.Entries.{Entries}
use souin.Storage.{Storer}
use souin.Surrogate.{
  Provider, surrogate_factory, parse_headers, surrogate_control, surrogate_key, candidate_store,
  contains_cache_key, unique_tag, is_safe_http_method, infinite_ttl,
}

abbrev pub surrogate_prefix : String
surrogate_prefix = "SURROGATE_"

pub record BaseStorage (S : Type 0) : Type 0 where
  pub parent : Provider
  pub storage : S
  pub dynamic : Bool
  pub keep_stale : Bool
  pub duration : ℤ

-- What init reads of the configuration: the CDN's name, strategy and flag, and the storer that the
-- entry _configuration names.
pub record SurrogateConfig : Type 0 where
  pub provider : String
  pub strategy : String
  pub dynamic : Bool
  pub configured_storer : Option String

-- The value that storeTag writes for a tag.
unfoldable pub extended : String → String → String
extended current_value cache_key =
    if current_value == "" then cache_key else current_value <> ("," <> cache_key)

-- Whether Store keeps a response under these controls: with the one empty control, with none,
-- or with one that is not no-store.
unfoldable pub stores : List String → Bool
unfolding candidate_store
stores [] = true
stores (control ∷ []) = control == "" || candidate_store control
stores (control ∷ (other ∷ controls)) = any candidate_store (control ∷ (other ∷ controls))

module _ {S : Type 0} (st : Storer S) where
  -- The storer that init takes: the named one, or else the default one.
  unfoldable pub chosen_storer : (String → Option S) → SurrogateConfig → String → Option S
  chosen_storer registered config default_name =
      elim (registered (or_else config.configured_storer default_name)) [
        | some storer ↦ some storer
        | none ↦ registered "DEFAULT-"
      ]

  -- init, with the factory that calls it: `none` is the panic of a storer that is nil.
  unfoldable pub init : (String → Option S) → SurrogateConfig → String → Option (BaseStorage S)
  unfolding chosen_storer surrogate_factory infinite_ttl
  init registered config default_name = elim (chosen_storer registered config default_name) [
    | none ↦ none
    | some storer ↦ some (record {
      parent = surrogate_factory config.provider;
      storage = storer;
      dynamic = config.dynamic;
      keep_stale = not (config.strategy == "hard");
      duration = infinite_ttl (st.name storer);
    })
  ]

  unfoldable pub store_tag : ℤ → String → String → BaseStorage S → BaseStorage S
  store_tag now tag cache_key s =
      let (current_value, storage) = st.get now (surrogate_prefix <> tag) s.storage in
      if contains_cache_key current_value cache_key
      then record s { storage = storage }
      else record s {
        storage =
            (st.set now (surrogate_prefix <> tag) (extended current_value cache_key) s.duration
              storage).1;
      }

  -- The cache keys of a tag at a time.
  abbrev pub tagged : ℤ → String → BaseStorage S → List String
  tagged now tag s = split (st.get now (surrogate_prefix <> tag) s.storage).0 ","

  -- The two calls of storeTag that Store makes for a tag.
  unfoldable pub store_both : ℤ → String → String → String → BaseStorage S → BaseStorage S
  store_both now key uri cache_key s = store_tag now uri cache_key (store_tag now key cache_key s)

  -- One round of the loop of Store.
  unfoldable pub store_step : ℤ → Header → String → String → String → BaseStorage S → BaseStorage S
  store_step now h cache_key uri key s =
      if stores (parse_headers s.parent (surrogate_control s.parent h).1)
      then store_both now key uri cache_key s
      else s

  unfoldable pub store_keys :
      ℤ → Header → String → String → List String → BaseStorage S → BaseStorage S
  store_keys now h cache_key uri [] s = s
  store_keys now h cache_key uri (key ∷ keys) s =
      store_keys now h cache_key uri keys (store_step now h cache_key uri key s)

  -- (*baseStorage).Store
  unfoldable pub store : ℤ → Header → String → String → BaseStorage S → BaseStorage S
  store now h cache_key uri s =
      store_keys now h (query_escape cache_key) uri
        (parse_headers s.parent (surrogate_key s.parent h)) s

  unfoldable pub purge_tag : ℤ → String → BaseStorage S → List String × BaseStorage S
  unfolding split
  purge_tag now tag s =
      let (to_invalidate, storage) = st.get now (surrogate_prefix <> tag) s.storage in
      (
        split to_invalidate ",",
        record s {
          storage = if s.keep_stale then storage else st.delete (surrogate_prefix <> tag) storage;
        },
      )

  -- The loop of Purge.
  unfoldable pub purge_tags : ℤ → List String → BaseStorage S → List String × BaseStorage S
  purge_tags now [] s = ([], s)
  purge_tags now (tag ∷ tags) s =
      let (keys, s') = purge_tag now tag s in
      let (later, s'') = purge_tags now tags s' in (keys ++ later, s'')

  -- (*baseStorage).Purge: the cache keys, the surrogate keys and the new state.
  unfoldable pub purge : ℤ → Header → BaseStorage S → List String × List String × BaseStorage S
  purge now h s =
      let surrogates = parse_headers s.parent (surrogate_key s.parent h) in
      let (to_invalidate, s') = purge_tags now surrogates s in
      (unique_tag to_invalidate, surrogates, s')

  -- Invalidate: headers["Cache-Group-Invalidation"] are the groups.
  unfoldable pub invalidate : ℤ → String → Header → BaseStorage S → BaseStorage S
  unfolding purge_tags is_safe_http_method Headers.lookup
  invalidate now method h s =
      if is_safe_http_method method
      then s
      else (purge_tags now (Headers.lookup "Cache-Group-Invalidation" h) s).1

  -- List
  unfoldable pub list : ℤ → BaseStorage S → Entries String × BaseStorage S
  list now s =
      let (entries, storage) = st.map_keys now surrogate_prefix s.storage in
      (entries, record s { storage = storage })

  -- Destruct
  unfoldable pub destruct : BaseStorage S → Bool × BaseStorage S
  destruct s =
      let (failed, storage) = st.reset s.storage in (failed, record s { storage = storage })
