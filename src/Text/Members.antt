-- ===== src/Text/Members.antt =====
-- The pieces of a text between commas, and the searches that find one of them.
use Prim.Native.Char.{Char, code}
use Prim.Native.String.{[], ◌∷◌}
use mathlib.Core.Path.{ap₂}
use text.Mathlib.TextEquality.{Char-path}
use text.Mathlib.TextLemmas.{nil-append, cons-append}
use souin.Prelude.{
  zero, String, ◌≡◌, refl, ◌↔◌, ◌≢◌, Bool, true, false, ◌||◌, List, [], ◌∷◌, arith, any, Has, ◌==◌,
  eq_iff, eq_refl, ◌++◌,
}
use souin.Text.{◌<>◌, equal, has_prefix, contains, has_suffix, split_from, split}

-- No byte of the text is a comma.
abbrev pub NoComma : String → Type 0
NoComma [] = Unit
NoComma (c ∷ s) = (code c ≢ b',') × NoComma s

pub equal-eq : (s t : String) → equal s t ≡ true → s ≡ t
unfolding equal
equal-eq [] [] h = refl
equal-eq [] (d ∷ t) h = cc
equal-eq (c ∷ s) [] h = cc
equal-eq (c ∷ s) (d ∷ t) h =
    ap₂ (λ (x : Char) (y : String). x ∷ y) (Char-path c d (ground arith))
      (equal-eq s t (ground arith))

pub equal_refl : (s : String) → equal s s ≡ true
unfolding equal
equal_refl [] = refl
equal_refl (c ∷ s) = ground (arith, equal_refl s)

-- The first piece, and the later ones.
abbrev first_is : String → List String → Bool
first_is k [] = equal [] k
first_is k (p ∷ ps) = equal p k

abbrev pub holds : String → List String → Bool
holds k ps = any (λ p. equal p k) ps

abbrev later_holds : String → List String → Bool
later_holds k [] = false
later_holds k (p ∷ ps) = holds k ps

split_from-ne-nil : (s : String) → split_from "," zero s ≢ []
unfolding split_from
split_from-ne-nil [] = cc
split_from-ne-nil (c ∷ s) = ground (arith, split_from-ne-nil s)

first-piece :
    (k s : String)
    → NoComma k
    → (equal s k || has_prefix s (k <> ",")) ≡ first_is k (split_from "," zero s)
unfolding equal has_prefix split_from
first-piece [] [] h = refl
first-piece (c ∷ k) [] h = rw cons-append refl
first-piece [] (d ∷ s) h = ground arith
first-piece (c ∷ k) (d ∷ s) h = rw cons-append (ground (arith, first-piece k s h.1))

later-pieces :
    (k s : String)
    → NoComma k
    → (has_suffix s ("," ∷ k) || contains s ("," ∷ (k <> ",")))
      ≡ later_holds k (split_from "," zero s)
unfolding has_suffix contains split_from
later-pieces k [] h = refl
later-pieces k (d ∷ s) h =
    ground (arith, first-piece k s h, later-pieces k s h, split_from-ne-nil s)

-- The four searches of a comma-separated text find exactly its pieces.
pub holds-split :
    (k s : String)
    → NoComma k
    → holds k (split s ",")
      ≡ (equal s k || has_prefix s (k <> ","))
        || (has_suffix s ("," ∷ k) || contains s ("," ∷ (k <> ",")))
unfolding split
holds-split k s h = ground (arith, first-piece k s h, later-pieces k s h, split_from-ne-nil s)

pub holds_iff : (k : String) (ps : List String) → (holds k ps ≡ true) ↔ Has k ps
holds_iff k [] = (λ e. absurd (cc), λ h. absurd h)
holds_iff k (p ∷ ps) = ground (arith, holds_iff k ps, equal-eq p k, equal_refl k)

pub split-NoComma : (k : String) → NoComma k → split k "," ≡ k ∷ []
unfolding split
split-NoComma [] h = refl
split-NoComma (c ∷ k) h = unfold split in ground (arith, split-NoComma k h.1)

-- A comma and a text behind a text add the pieces of the second.
pub split-append : (s k : String) → split (s <> ("," ∷ k)) "," ≡ split s "," ++ split k ","
unfolding split
split-append [] k = rw nil-append refl
split-append (c ∷ s) k = rw cons-append (ground (arith, split-append s k, split_from-ne-nil s))

pub holds-append :
    (k : String) (ps qs : List String) → holds k (ps ++ qs) ≡ holds k ps || holds k qs
holds-append k [] qs = refl
holds-append k (p ∷ ps) qs = ground (arith, holds-append k ps qs)

pub listed_iff : (k : String) (ps : List String) → (any (λ p. p == k) ps ≡ true) ↔ Has k ps
listed_iff k [] = (λ e. absurd (cc), λ h. absurd h)
listed_iff k (p ∷ ps) = ground (arith, listed_iff k ps, eq_iff p k, eq_refl k)
