-- ===== src/Text.antt =====
-- Go strings as texts whose characters are the bytes, and what the program uses of the package
-- strings. Of the white space that TrimSpace removes only the ASCII one is modelled.
pub mod Split
pub mod Members
pub mod Escape
pub mod RoundTrip
pub mod Safe
pub mod Case
pub mod Numbers
use Prim.Native.Char.{Char, code}
use Prim.Native.String
use Prim.Native.String.{[], ◌∷◌}
use souin.Prelude.{
  ℕ, zero, suc, ◌-◌, String, Bool, true, false, ◌&&◌, ◌||◌, List, [], ◌∷◌, ◌==◌, eqb, leb,
  if◌then◌else◌,
}

infixr 66 ◌<>◌
-- s + t
abbrev pub ◌<>◌ : String → String → String
s <> t = String.◌++◌ s t

abbrev pub same : Char → Char → Bool
same c d = eqb (code c) (code d)

-- The equality of texts by recursion; it agrees with the native one.
unfoldable pub equal : String → String → Bool
equal [] [] = true
equal [] (d ∷ t) = false
equal (c ∷ s) [] = false
equal (c ∷ s) (d ∷ t) = same c d && equal s t

-- strings.HasPrefix(s, p)
unfoldable pub has_prefix : String → String → Bool
has_prefix s [] = true
has_prefix [] (c ∷ p) = false
has_prefix (d ∷ s) (c ∷ p) = same d c && has_prefix s p

-- strings.CutPrefix(s, p), without its second result
unfoldable pub cut_prefix_from : String → String → String → String
cut_prefix_from whole s [] = s
cut_prefix_from whole [] (c ∷ p) = whole
cut_prefix_from whole (d ∷ s) (c ∷ p) =
    let rest = cut_prefix_from whole s p in if same d c then rest else whole

unfoldable pub cut_prefix : String → String → String
unfolding cut_prefix_from
cut_prefix s p = cut_prefix_from s s p

-- strings.Contains(s, p)
unfoldable pub contains : String → String → Bool
unfolding has_prefix
contains [] p = has_prefix [] p
contains (d ∷ s) p = has_prefix (d ∷ s) p || contains s p

-- strings.HasSuffix(s, p)
unfoldable pub has_suffix : String → String → Bool
unfolding equal
has_suffix [] p = equal [] p
has_suffix (d ∷ s) p = equal (d ∷ s) p || has_suffix s p

abbrev pub count : String → ℕ
count = String.count

-- Puts a byte before the first piece.
abbrev pub cons_head : Char → List String → List String
cons_head c [] = (c ∷ []) ∷ []
cons_head c (p ∷ ps) = (c ∷ p) ∷ ps

-- strings.Split for a separator that is not empty; `skip` bytes belong to the last separator.
unfoldable pub split_from : String → ℕ → String → List String
unfolding has_prefix
split_from sep skip [] = "" ∷ []
split_from sep (suc skip) (c ∷ s) = split_from sep skip s
split_from sep zero (c ∷ s) =
    let later = split_from sep (count sep - 1) s in
    let longer = split_from sep zero s in
    if has_prefix (c ∷ s) sep then "" ∷ later else cons_head c longer

unfoldable pub split : String → String → List String
unfolding split_from
split s sep = split_from sep 0 s

-- strings.Join
unfoldable pub join : List String → String → String
join [] sep = ""
join (s ∷ []) sep = s
join (s ∷ (t ∷ ts)) sep = s <> (sep <> join (t ∷ ts) sep)

abbrev pub is_space : Char → Bool
is_space c = eqb (code c) 32 || (leb 9 (code c) && leb (code c) 13)

abbrev cons_unless : (Char → Bool) → Char → String → String
cons_unless p c [] = if p c then [] else c ∷ []
cons_unless p c (d ∷ t) = c ∷ (d ∷ t)

unfoldable pub trim_left_of : (Char → Bool) → String → String
trim_left_of p [] = []
trim_left_of p (c ∷ s) = let rest = trim_left_of p s in if p c then rest else c ∷ s

unfoldable pub trim_right_of : (Char → Bool) → String → String
trim_right_of p [] = []
trim_right_of p (c ∷ s) = cons_unless p c (trim_right_of p s)

-- strings.TrimSpace
unfoldable pub trim_space : String → String
unfolding trim_left_of trim_right_of
trim_space s = trim_right_of is_space (trim_left_of is_space s)

-- strings.Trim(s, " ")
unfoldable pub trim_blanks : String → String
unfolding trim_left_of trim_right_of
trim_blanks s = trim_right_of (λ c. eqb (code c) 32) (trim_left_of (λ c. eqb (code c) 32) s)
