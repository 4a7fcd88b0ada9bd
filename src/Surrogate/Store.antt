-- ===== src/Surrogate/Store.antt =====
-- Store and Purge together: what the tags of a response are worth when they are purged.
use Prim.Native.Char.{Char, code}
use mathlib.Core.Path.{subst}
use Prim.Native.String.{[], ◌∷◌}
use souin.Prelude.{
  String, ◌≡◌, ◌≢◌, refl, ap, ◌∙◌, ◌⊎◌, ◌/◌, ◌%◌, inl, inr, true, false, List, [], ◌∷◌, eq_iff,
  eq_refl, Has, Bool-cases, arith,
}
use souin.Prelude.Int.{ℤ}
use souin.Text.{◌<>◌, contains}
use souin.Text.Escape.{hex, query_escape}
use souin.Text.RoundTrip.{
  IsBytes, query_unescape-query_escape, query_escape-NoComma, query_escape-ne-nil, escape_cases,
}
use souin.Text.Members.{NoComma, equal_refl, holds, holds_iff, holds-append}
use souin.Http.Headers.{Header}
use souin.Storage.{Storer}
use souin.Storage.Contract.{StorerLaws}
use souin.Surrogate.{decoded_tag, parse_headers, surrogate_control, surrogate_key, unique_tag}
use souin.Surrogate.Base.{
  BaseStorage, surrogate_prefix, tagged, stores, store_tag, store_both, store_step, store_keys,
  store, purge_tag, purge_tags, purge,
}
use souin.Surrogate.Tags.{tagged-store_tag, purge_tag_lem}
use souin.Surrogate.Unique.{Has-unique_tag}

-- A key that uniqueTag decodes to itself once it is escaped: it has an escape by "%", or no space.
abbrev pub NoSpace : String → Type 0
NoSpace [] = Unit
NoSpace (c ∷ s) = (code c ≢ 32) × NoSpace s

abbrev pub Survives : String → Type 0
Survives k = (contains (query_escape k) "%" ≡ true) ⊎ NoSpace k

contains-tail : (c : Char) (s : String) → contains (c ∷ s) "%" ≡ false → contains s "%" ≡ false
unfolding contains
contains-tail c s h = ground arith

contains-percent : (s : String) → contains ("%" ∷ s) "%" ≡ true
unfolding contains
contains-percent s = refl

query_escape-same :
    (k : String) → NoSpace k → contains (query_escape k) "%" ≡ false → query_escape k ≡ k
query_escape-same [] n h = unfold query_escape in refl
query_escape-same (c ∷ k) n h = elim (escape_cases c k) [
  | inl (p, e) ↦
      let h' : contains (c ∷ query_escape k) "%" ≡ false = rw e at h in
      rw e
        (ap (λ (t : String). c ∷ t) (query_escape-same k n.1 (contains-tail c (query_escape k) h')))
  | inr (inl (p, e)) ↦ absurd (n.0 p)
  | inr (inr e) ↦ cc (
    ap (λ t. contains t "%") e,
    h,
    contains-percent (hex (code c / 16) ∷ (hex (code c % 16) ∷ query_escape k)),
  )
]

decoded-escaped : (k : String) → IsBytes k → Survives k → decoded_tag (query_escape k) ≡ k
unfolding decoded_tag
decoded-escaped k b (inl e) = rw (e, query_unescape-query_escape k b)
decoded-escaped k b (inr n) = elim (Bool-cases (contains (query_escape k) "%")) [
  | inl e ↦ rw (e, query_unescape-query_escape k b)
  | inr e ↦ rw e (query_escape-same k n e)
]

module _ {S : Type 0} (st : Storer S) (laws : StorerLaws st) where
  -- A key that a tag has is not lost by a storeTag of the same key.
  tagged-keeps :
      (now : ℤ) (tag other k : String) (s : BaseStorage S)
      → laws.alive now s.duration now ≡ true
      → NoComma k
      → k ≢ ""
      → holds k (tagged st now other s) ≡ true
      → holds k (tagged st now other (store_tag st now tag k s)) ≡ true
  tagged-keeps now tag other k s live h n had = ground (
    arith,
    tagged-store_tag st laws now tag other k k s live h n n,
    equal_refl k,
    eq_iff (surrogate_prefix <> tag) (surrogate_prefix <> other),
  )

  duration-store_tag :
      (now : ℤ) (tag k : String) (s : BaseStorage S)
      → ((store_tag st now tag k s).duration ≡ s.duration)
        × ((store_tag st now tag k s).parent ≡ s.parent)
        × ((store_tag st now tag k s).keep_stale ≡ s.keep_stale)
  unfolding store_tag
  duration-store_tag now tag k s = ground arith

  module _ (now : ℤ) (k : String) (separate : NoComma k) (full : k ≢ "") where
    store_both-keeps :
        (key uri other : String) (s : BaseStorage S)
        → laws.alive now s.duration now ≡ true
        → holds k (tagged st now other s) ≡ true
        → holds k (tagged st now other (store_both st now key uri k s)) ≡ true
    unfolding store_both
    store_both-keeps key uri other s live had =
        let s' = store_tag st now key k s in
        tagged-keeps now uri other k s' (rw ((duration-store_tag now key k s).0) live) separate full
          (tagged-keeps now key other k s live separate full had)

    store_both-adds :
        (key uri : String) (s : BaseStorage S)
        → laws.alive now s.duration now ≡ true
        → holds k (tagged st now key (store_both st now key uri k s)) ≡ true
    unfolding store_both
    store_both-adds key uri s live =
        let s' = store_tag st now key k s in
        tagged-keeps now uri key k s' (rw ((duration-store_tag now key k s).0) live) separate full (
          ground (
            arith,
            tagged-store_tag st laws now key key k k s live separate full full,
            equal_refl k,
            eq_refl (surrogate_prefix <> key),
          ))

    duration-store_both :
        (key uri : String) (s : BaseStorage S)
        → ((store_both st now key uri k s).duration ≡ s.duration)
          × ((store_both st now key uri k s).parent ≡ s.parent)
    unfolding store_both
    duration-store_both key uri s = ground (
      arith,
      duration-store_tag now key k s,
      duration-store_tag now uri k (store_tag st now key k s),
    )

    duration-store_step :
        (h : Header) (key uri : String) (s : BaseStorage S)
        → ((store_step st now h k uri key s).duration ≡ s.duration)
          × ((store_step st now h k uri key s).parent ≡ s.parent)
    unfolding store_step
    duration-store_step h key uri s = ground (arith, duration-store_both key uri s)

    store_step-keeps :
        (h : Header) (key uri other : String) (s : BaseStorage S)
        → laws.alive now s.duration now ≡ true
        → holds k (tagged st now other s) ≡ true
        → holds k (tagged st now other (store_step st now h k uri key s)) ≡ true
    unfolding store_step
    store_step-keeps h key uri other s live had =
        ground (arith, store_both-keeps key uri other s live had)

    store_step-adds :
        (h : Header) (key uri : String) (s : BaseStorage S)
        → laws.alive now s.duration now ≡ true
        → stores (parse_headers s.parent (surrogate_control s.parent h).1) ≡ true
        → holds k (tagged st now key (store_step st now h k uri key s)) ≡ true
    unfolding store_step
    store_step-adds h key uri s live kept = rw kept (store_both-adds key uri s live)

    parent-store_keys :
        (h : Header) (uri : String) (keys : List String) (s : BaseStorage S)
        → (store_keys st now h k uri keys s).parent ≡ s.parent
    unfolding store_keys
    parent-store_keys h uri [] s = refl
    parent-store_keys h uri (key ∷ keys) s =
        parent-store_keys h uri keys (store_step st now h k uri key s)
        ∙ (duration-store_step h key uri s).1

    store_keys-keeps :
        (h : Header) (uri other : String) (keys : List String) (s : BaseStorage S)
        → laws.alive now s.duration now ≡ true
        → holds k (tagged st now other s) ≡ true
        → holds k (tagged st now other (store_keys st now h k uri keys s)) ≡ true
    unfolding store_keys
    store_keys-keeps h uri other [] s live had = had
    store_keys-keeps h uri other (key ∷ keys) s live had =
        store_keys-keeps h uri other keys (store_step st now h k uri key s)
          (rw ((duration-store_step h key uri s).0) live)
          (store_step-keeps h key uri other s live had)

    -- Store adds the key to each tag of the response, if the controls let it store.
    store_keys-adds :
        (h : Header) (uri tag : String) (keys : List String) (s : BaseStorage S)
        → laws.alive now s.duration now ≡ true
        → stores (parse_headers s.parent (surrogate_control s.parent h).1) ≡ true
        → Has tag keys
        → holds k (tagged st now tag (store_keys st now h k uri keys s)) ≡ true
    unfolding store_keys
    store_keys-adds h uri tag [] s live kept listed = absurd listed
    store_keys-adds h uri tag (key ∷ keys) s live kept listed =
        let s' = store_step st now h k uri key s in
        let live' : laws.alive now s'.duration now ≡ true =
          rw ((duration-store_step h key uri s).0) live in
        elim listed [
          | inl e ↦
              rw e
                (store_keys-keeps h uri key keys s' live' (store_step-adds h key uri s live kept))
          | inr l ↦
              store_keys-adds h uri tag keys s' live'
                (rw ((duration-store_step h key uri s).1) kept) l
        ]

  -- What purging the tags returns holds the keys of each of them.
  purge_tags-holds :
      (now : ℤ) (k tag : String) (tags : List String) (s : BaseStorage S)
      → Has tag tags
      → holds k (tagged st now tag s) ≡ true
      → holds k (purge_tags st now tags s).0 ≡ true
  unfolding purge_tags
  purge_tags-holds now k tag [] s listed had = absurd listed
  purge_tags-holds now k tag (t ∷ tags) s listed had =
      let s' = (purge_tag st now t s).1 in
      ground (
        arith,
        holds-append k (purge_tag st now t s).0 (purge_tags st now tags s').0,
        purge_tag_lem st laws now now t tag s (omega arith),
        eq_iff (surrogate_prefix <> t) (surrogate_prefix <> tag),
        purge_tags-holds now k tag tags s',
      )

  -- A response that is stored with tags, and is kept by its controls, is found by a purge of any of
  -- these tags at that time: the purge returns its cache key, if what the tags store is still alive then
  -- and the key is a text of bytes, is not empty, and has no space or is one that query escaping writes
  -- with a "%".
  pub Has-purge-store :
      (now : ℤ) (h asked : Header) (cache_key uri tag : String) (s : BaseStorage S)
      → laws.alive now s.duration now ≡ true
      → IsBytes cache_key
      → cache_key ≢ ""
      → Survives cache_key
      → stores (parse_headers s.parent (surrogate_control s.parent h).1) ≡ true
      → Has tag (parse_headers s.parent (surrogate_key s.parent h))
      → Has tag (parse_headers s.parent (surrogate_key s.parent asked))
      → Has cache_key (purge st now asked (store st now h cache_key uri s)).0
  unfolding purge store
  Has-purge-store now h asked cache_key uri tag s live bytes full survives kept marked named =
      let k = query_escape cache_key in
      let keys = parse_headers s.parent (surrogate_key s.parent h) in
      let s' = store_keys st now h k uri keys s in
      let separate = query_escape-NoComma cache_key bytes in
      let some_key = query_escape-ne-nil cache_key full in
      let found = store_keys-adds now k separate some_key h uri tag keys s live kept marked in
      let same_parent : s'.parent ≡ s.parent =
        parent-store_keys now k separate some_key h uri keys s in
      let asked_tags = parse_headers s'.parent (surrogate_key s'.parent asked) in
      let named' : Has tag asked_tags = rw same_parent named in
      let raw : Has k (purge_tags st now asked_tags s').0 =
        (holds_iff k _).0 (purge_tags-holds now k tag asked_tags s' named' found) in
      subst (λ x. Has x (unique_tag (purge_tags st now asked_tags s').0))
        (decoded-escaped cache_key bytes survives)
        ((Has-unique_tag (purge_tags st now asked_tags s').0).0 k raw some_key)
