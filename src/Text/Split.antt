-- ===== src/Text/Split.antt =====
-- The equality of texts, and the pieces of a text between commas.
use Prim.Native.String.{[], ◌∷◌}
use souin.Prelude.{String, ◌≡◌, refl, List, [], ◌∷◌}
use souin.Text.{split, trim_space}

abbrev commas : List String
commas = split " a, b,," ","

split-comma : split "a,b,,ccc," "," ≡ "a" ∷ "b" ∷ "" ∷ "ccc" ∷ "" ∷ []
unfolding split
split-comma = refl

split-two : split ", a, b,c, " ", " ≡ "" ∷ "a" ∷ "b,c" ∷ "" ∷ []
unfolding split
split-two = refl

trim_both : trim_space "  a b \t" ≡ "a b"
unfolding trim_space
trim_both = refl
