-- ===== src/Surrogate/Unique.antt =====
-- uniqueTag: which tags it returns.
use souin.Prelude.{
  String, ◌≡◌, ◌≢◌, ◌↔◌, refl, ◌∙◌, sym, All, ◌⊎◌, inl, inr, Bool, false, ◌||◌, List, [], ◌∷◌, ◌==◌,
  eq_iff, any, Has, Bool-cases, arith,
}
use mathlib.Core.Path.{subst}
use souin.Text.{contains}
use souin.Text.Members.{listed_iff}
use souin.Surrogate.{decoded_tag, unique_from, unique_tag}

abbrev seen_tag : String → List String → Bool
seen_tag tag seen = any (λ s. s == tag) seen

-- A tag that is listed comes out decoded, unless it is empty or was seen.
Has-unique_from :
    (tag : String) (seen tags : List String)
    → Has tag tags
    → tag ≢ ""
    → Has tag seen ⊎ Has (decoded_tag tag) (unique_from seen tags)
unfolding unique_from
Has-unique_from tag seen [] h n = absurd h
Has-unique_from tag seen (t ∷ tags) h n = ground (
  arith,
  Has-unique_from tag seen tags,
  Has-unique_from tag (t ∷ seen) tags,
  listed_iff t seen,
  eq_iff t "",
)

-- A tag of the list that comes out decoded as `x`.
abbrev pub Comes : String → List String → Type 0
Comes x tags = (tag : String) × Has tag tags × (tag ≢ "") × (decoded_tag tag ≡ x)

Comes-cons : (x t : String) (tags : List String) → Comes x tags → Comes x (t ∷ tags)
Comes-cons x t tags (tag, listed, full, same_) = (tag, inr listed, full, same_)

unique_from-Comes :
    (x : String) (seen tags : List String) → Has x (unique_from seen tags) → Comes x tags
unfolding unique_from
unique_from-Comes x seen [] h = absurd h
unique_from-Comes x seen (t ∷ tags) h = elim (Bool-cases (t == "" || seen_tag t seen)) [
  | inl skip ↦
      let h' : Has x (unique_from seen tags) = rw skip at h in
      Comes-cons x t tags (unique_from-Comes x seen tags h')
  | inr fresh ↦
      let h' : (x ≡ decoded_tag t) ⊎ Has x (unique_from (t ∷ seen) tags) = rw fresh at h in
      elim h' [
        | inl e ↦ (t, inl refl, λ empty. ground (arith, eq_iff t ""), sym e)
        | inr r ↦ Comes-cons x t tags (unique_from-Comes x (t ∷ seen) tags r)
      ]
]

-- uniqueTag returns, decoded, exactly the tags of its list that are not empty.
pub Has-unique_tag :
    (tags : List String)
    → ((tag : String) → Has tag tags → tag ≢ "" → Has (decoded_tag tag) (unique_tag tags))
      × ((x : String) → Has x (unique_tag tags) → Comes x tags)
unfolding unique_tag
Has-unique_tag tags =
    (λ tag h n. listed tag (Has-unique_from tag [] tags h n), λ x h. unique_from-Comes x [] tags h)
  where
    listed :
        (tag : String)
        → Has tag [] ⊎ Has (decoded_tag tag) (unique_from [] tags)
        → Has (decoded_tag tag) (unique_from [] tags)
    listed tag (inl e) = absurd e
    listed tag (inr r) = r

-- Without escapes, no tag comes out twice.
abbrev pub IsDistinct : List String → Type 0
IsDistinct [] = Unit
IsDistinct (x ∷ xs) = ¬ Has x xs × IsDistinct xs

abbrev pub NoEscape : String → Type 0
NoEscape tag = contains tag "%" ≡ false

decoded_plain : (tag : String) → NoEscape tag → decoded_tag tag ≡ tag
unfolding decoded_tag
decoded_plain tag h = rw h

unseen :
    (x : String) (seen tags : List String)
    → All NoEscape tags
    → Has x (unique_from seen tags)
    → ¬ Has x seen
unfolding unique_from
unseen x seen [] a h = absurd h
unseen x seen (t ∷ tags) a h = elim (Bool-cases (t == "" || seen_tag t seen)) [
  | inl skip ↦ let h' : Has x (unique_from seen tags) = rw skip at h in unseen x seen tags a.1 h'
  | inr fresh ↦
      let h' : (x ≡ decoded_tag t) ⊎ Has x (unique_from (t ∷ seen) tags) = rw fresh at h in
      elim h' [
        | inl e ↦ λ hs.
            let hs' : Has t seen = subst (λ y. Has y seen) (e ∙ decoded_plain t a.0) hs in
            ground (arith, listed_iff t seen)
        | inr r ↦ λ hs. unseen x (t ∷ seen) tags a.1 r (inr hs)
      ]
]

unique_from-IsDistinct :
    (seen tags : List String) → All NoEscape tags → IsDistinct (unique_from seen tags)
unfolding unique_from
unique_from-IsDistinct seen [] a = tt
unique_from-IsDistinct seen (t ∷ tags) a = elim (Bool-cases (t == "" || seen_tag t seen)) [
  | inl skip ↦ rw skip (unique_from-IsDistinct seen tags a.1)
  | inr fresh ↦ rw fresh (
    λ h. unseen (decoded_tag t) (t ∷ seen) tags a.1 h (inl (decoded_plain t a.0)),
    unique_from-IsDistinct (t ∷ seen) tags a.1,
  )
]

-- Of tags without escapes uniqueTag returns none twice.
pub unique_tag-IsDistinct : (tags : List String) → All NoEscape tags → IsDistinct (unique_tag tags)
unfolding unique_tag
unique_tag-IsDistinct tags a = unique_from-IsDistinct [] tags a

-- uniqueTag returns exactly the texts that a tag of its list, which is not empty, decodes to.
pub unique_tag_iff : (tags : List String) (x : String) → Has x (unique_tag tags) ↔ Comes x tags
unique_tag_iff tags x = ((Has-unique_tag tags).1 x, λ c. came c)
  where
    came : Comes x tags → Has x (unique_tag tags)
    came (tag, listed, full, e) =
        subst (λ y. Has y (unique_tag tags)) e ((Has-unique_tag tags).0 tag listed full)
