-- ===== src/Surrogate/Tags.antt =====
-- containsCacheKey, storeTag and purgeTag, read as operations on the pieces of a tag's value.
use Prim.Native.String.{[], ◌∷◌}
use text.Mathlib.TextLemmas.{nil-append, cons-append}
use souin.Prelude.{
  String, ◌≡◌, ◌≢◌, refl, sym, ap, ◌∙◌, true, false, ◌||◌, ◌&&◌, [], ◌∷◌, ◌==◌, eq_iff, eq_refl,
  not, inl, inr, Bool-cases, arith, if◌then◌else◌,
}
use souin.Prelude.Int.{ℤ, ◌≤ℤ◌}
use souin.Text.{◌<>◌, equal, has_prefix, has_suffix, contains, split}
use souin.Text.Members.{
  NoComma, equal-eq, equal_refl, holds, holds-split, holds-append, split-append, split-NoComma,
}
use souin.Storage.{Storer}
use souin.Storage.Contract.{StorerLaws}
use souin.Surrogate.{contains_cache_key}
use souin.Surrogate.Base.{BaseStorage, surrogate_prefix, tagged, extended, store_tag, purge_tag}

==-eq-equal : (s t : String) → (s == t) ≡ equal s t
==-eq-equal s t = ground (arith, eq_iff s t, equal-eq s t, equal_refl s)

comma_first : (k : String) → ("," <> k) ≡ ("," ∷ k)
comma_first k = cons-append "," "" k ∙ ap (λ (t : String). "," ∷ t) (nil-append k)

between_commas : (k : String) → (("," <> k) <> ",") ≡ ("," ∷ (k <> ","))
between_commas k = ap (λ (t : String). t <> ",") (comma_first k) ∙ cons-append "," k ","

split-nil : split "" "," ≡ "" ∷ []
unfolding split
split-nil = refl

not-holds-nil : (k : String) → k ≢ "" → holds k (split "" ",") ≡ false
not-holds-nil k n = rw split-nil (ground (arith, equal-eq "" k))

contains_cache_key-nil : (k : String) → contains_cache_key "" k ≡ false
unfolding contains_cache_key
contains_cache_key-nil k = refl

-- The four searches of containsCacheKey, in a value that is not empty.
contains_cache_key-searches :
    (v k : String)
    → (v == "") ≡ false
    → contains_cache_key v k ≡ (
        (equal v k || has_prefix v (k <> ","))
        || (has_suffix v ("," ∷ k) || contains v ("," ∷ (k <> ","))))
unfolding contains_cache_key
contains_cache_key-searches v k full =
    ground (arith, ==-eq-equal v k, comma_first k, between_commas k)

-- containsCacheKey finds a key without commas exactly if it is one of the pieces between commas.
pub contains_cache_key-eq-holds :
    (current_value k : String)
    → NoComma k
    → k ≢ ""
    → contains_cache_key current_value k ≡ holds k (split current_value ",")
contains_cache_key-eq-holds v k h n = elim (Bool-cases (v == "")) [
  | inl empty ↦ rw ((eq_iff v "").0 empty) (contains_cache_key-nil k ∙ sym (not-holds-nil k n))
  | inr full ↦ contains_cache_key-searches v k full ∙ sym (holds-split k v h)
]

holds-extended :
    (v k j : String)
    → NoComma k
    → j ≢ ""
    → holds j (split (extended v k) ",") ≡ holds j (split v ",") || equal k j
unfolding extended
holds-extended v k j h n = ground (
  arith,
  eq_iff v "",
  not-holds-nil j n,
  comma_first k,
  split-NoComma k h,
  split-append v k,
  holds-append j (split v ",") (k ∷ []),
)

module _ {S : Type 0} (st : Storer S) (laws : StorerLaws st) where
  -- storeTag adds the key to its tag, keeps the other keys of it, and leaves the other tags alone.
  pub tagged-store_tag :
      (now : ℤ) (tag other k j : String) (s : BaseStorage S)
      → laws.alive now s.duration now ≡ true
      → NoComma k
      → k ≢ ""
      → j ≢ ""
      → holds j (tagged st now other (store_tag st now tag k s)) ≡ (
          if (surrogate_prefix <> tag) == (surrogate_prefix <> other)
          then holds j (tagged st now tag s) || equal k j
          else holds j (tagged st now other s))
  unfolding store_tag
  tagged-store_tag now tag other k j s live h n m =
      let v = (st.get now (surrogate_prefix <> tag) s.storage).0 in
      let read = (st.get now (surrogate_prefix <> tag) s.storage).1 in
      ground (
        arith,
        laws.get_set now now (surrogate_prefix <> tag) (surrogate_prefix <> other) (extended v k)
            s.duration read,
        laws.get_get now now (surrogate_prefix <> tag) (surrogate_prefix <> other) s.storage
            (omega arith),
        holds-extended v k j h m,
        contains_cache_key-eq-holds v k h n,
        equal-eq k j,
        eq_iff (surrogate_prefix <> tag) (surrogate_prefix <> other),
      )

  store_tag_known :
      (now : ℤ) (tag other k : String) (s : BaseStorage S)
      → contains_cache_key (st.get now (surrogate_prefix <> tag) s.storage).0 k ≡ true
      → (st.get now (surrogate_prefix <> other) (store_tag st now tag k s).storage).0
        ≡ (st.get now (surrogate_prefix <> other) s.storage).0
  unfolding store_tag
  store_tag_known now tag other k s found = rw found (
      laws.get_get now now (surrogate_prefix <> tag) (surrogate_prefix <> other) s.storage
        (omega arith))

  -- A second storeTag of the same key changes nothing that a Get at that time shows.
  pub store_tag_idem :
      (now : ℤ) (tag other k : String) (s : BaseStorage S)
      → laws.alive now s.duration now ≡ true
      → NoComma k
      → k ≢ ""
      → (st.get now
          (surrogate_prefix <> other)
          (store_tag st now tag k (store_tag st now tag k s)).storage).0
        ≡ (st.get now (surrogate_prefix <> other) (store_tag st now tag k s).storage).0
  store_tag_idem now tag other k s live h n =
      let s' = store_tag st now tag k s in
      store_tag_known now tag other k s' (
        ground (
          arith,
          contains_cache_key-eq-holds (st.get now (surrogate_prefix <> tag) s'.storage).0 k h n,
          tagged-store_tag now tag tag k k s live h n n,
          eq_refl (surrogate_prefix <> tag),
          equal_refl k,
        ))

  -- purgeTag returns the keys of the tag. With the hard strategy the tag has no value from then
  -- on; with the other it keeps the one that it had. The other tags keep theirs.
  pub purge_tag_lem :
      (now later : ℤ) (tag other : String) (s : BaseStorage S)
      → now ≤ℤ later
      → ((purge_tag st now tag s).0 ≡ tagged st now tag s)
        × ((st.get later (surrogate_prefix <> other) (purge_tag st now tag s).1.storage).0 ≡ (
            if not s.keep_stale && (surrogate_prefix <> tag) == (surrogate_prefix <> other)
            then ""
            else (st.get later (surrogate_prefix <> other) s.storage).0))
  unfolding purge_tag
  purge_tag_lem now later tag other s le =
      let read = (st.get now (surrogate_prefix <> tag) s.storage).1 in
      (
        refl,
        ground (
          arith,
          laws.get_get now later (surrogate_prefix <> tag) (surrogate_prefix <> other) s.storage le,
          laws.get_delete later (surrogate_prefix <> tag) (surrogate_prefix <> other) read,
        ),
      )
