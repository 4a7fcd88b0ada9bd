-- ===== src/Text/Case.antt =====
-- strings.ToLower and strings.ToUpper on ASCII bytes, and the canonical form of a header's name.
use Prim.Native.Char.{Char, code}
use Prim.Native.String.{[], ◌∷◌}
use souin.Prelude.{
  ◌+◌, ◌-◌, String, ◌≡◌, refl, Bool, true, false, ◌&&◌, ◌||◌, eqb, leb, if◌then◌else◌,
}
use souin.Text.Escape.{byte}

abbrev is_upper : Char → Bool
is_upper c = leb b'A' (code c) && leb (code c) b'Z'

abbrev is_lower : Char → Bool
is_lower c = leb b'a' (code c) && leb (code c) b'z'

unfoldable pub lower : Char → Char
unfolding byte
lower c = if is_upper c then byte (code c + 32) else c

unfoldable pub upper : Char → Char
unfolding byte
upper c = if is_lower c then byte (code c - 32) else c

unfoldable pub to_lower : String → String
unfolding lower
to_lower [] = []
to_lower (c ∷ s) = lower c ∷ to_lower s

unfoldable pub to_upper : String → String
unfolding upper
to_upper [] = []
to_upper (c ∷ s) = upper c ∷ to_upper s

abbrev is_one_of : Char → String → Bool
is_one_of c [] = false
is_one_of c (d ∷ s) = eqb (code c) (code d) || is_one_of c s

-- The bytes of a token: only such a name is made canonical.
unfoldable pub is_token : String → Bool
is_token [] = true
is_token (c ∷ s) =
    (is_upper c
      || is_lower c
      || (leb b'0' (code c) && leb (code c) b'9')
      || is_one_of c "!#$%&'*+-.^_`|~")
    && is_token s

unfoldable pub canonical_from : Bool → String → String
unfolding lower upper
canonical_from start [] = []
canonical_from start (c ∷ s) =
    (if start then upper c else lower c) ∷ canonical_from (eqb (code c) b'-') s

-- http.CanonicalHeaderKey
unfoldable pub canonical_key : String → String
unfolding is_token canonical_from
canonical_key s = if is_token s then canonical_from true s else s

canonical_tests :
    (canonical_key "cache-CONTROL" ≡ "Cache-Control") × (canonical_key "a key" ≡ "a key")
unfolding canonical_key
canonical_tests = (refl, refl)
