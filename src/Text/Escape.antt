-- ===== src/Text/Escape.antt =====
-- url.QueryEscape and url.QueryUnescape, byte by byte.
use Prim.Native.Char.{Char, char, code, IsScalar}
use Prim.Native.String.{[], ◌∷◌}
use Prim.Native.Nat.{compare, Ordering}
use mathlib.Core.Logic.{dite}
use native.Mathlib.Decide.{dec_lt}
use souin.Prelude.{
  ℕ, ◌<◌, arith, ◌+◌, ◌-◌, ◌*◌, ◌/◌, ◌%◌, String, ◌≡◌, refl, Bool, ◌&&◌, ◌||◌, Option, none, some,
  eqb, ltb, leb, if◌then◌else◌,
}

pub below-IsScalar : (n : ℕ) → n < 256 → IsScalar n
below-IsScalar n h = let e : compare n 55296 ≡ Ordering.lt = ground arith in rw e tt

-- The byte of a number.
unfoldable pub byte : ℕ → Char
unfolding dec_lt
byte n = dite (dec_lt n 256) (λ h. char n (below-IsScalar n h)) (λ _. " ")

abbrev is_alnum : Char → Bool
is_alnum c =
    (leb b'a' (code c) && leb (code c) b'z')
    || (leb b'A' (code c) && leb (code c) b'Z')
    || (leb b'0' (code c) && leb (code c) b'9')

-- shouldEscape of net/url in the mode of a query component, negated: the bytes that stay.
unfoldable pub is_plain : Char → Bool
is_plain c =
    is_alnum c || eqb (code c) b'-' || eqb (code c) b'_' || eqb (code c) b'.' || eqb (code c) b'~'

-- upperhex[n]
abbrev pub hex : ℕ → Char
hex n = if ltb n 10 then byte (b'0' + n) else byte (b'A' + n - 10)

unfoldable pub query_escape : String → String
unfolding is_plain byte
query_escape [] = ""
query_escape (c ∷ s) =
    let rest = query_escape s in
    if is_plain c
    then c ∷ rest
    else if eqb (code c) b' '
    then "+" ∷ rest
    else "%" ∷ (hex (code c / 16) ∷ (hex (code c % 16) ∷ rest))

-- The value of a hexadecimal digit.
unfoldable pub unhex : Char → Option ℕ
unhex c =
    if leb b'0' (code c) && leb (code c) b'9'
    then some (code c - b'0')
    else if leb b'a' (code c) && leb (code c) b'f'
    then some (code c - b'a' + 10)
    else if leb b'A' (code c) && leb (code c) b'F'
    then some (code c - b'A' + 10)
    else none

-- The byte of two hexadecimal digits, before the rest; `none` is the error of a bad escape.
abbrev pub put_byte : Option ℕ → Option ℕ → Option String → Option String
put_byte (some a) (some b) (some s) = some (byte (a * 16 + b) ∷ s)
put_byte _ _ _ = none

abbrev pub put_char : Char → Option String → Option String
put_char c none = none
put_char c (some s) = some (c ∷ s)

-- url.QueryUnescape; `none` is its error.
unfoldable pub query_unescape : String → Option String
unfolding unhex byte
query_unescape [] = some ""
query_unescape (c ∷ []) =
    if eqb (code c) b'%' then none else put_char (if eqb (code c) b'+' then " " else c) (some "")
query_unescape (c ∷ (a ∷ [])) =
    let rest = query_unescape (a ∷ []) in
    if eqb (code c) b'%' then none else put_char (if eqb (code c) b'+' then " " else c) rest
query_unescape (c ∷ (a ∷ (b ∷ s))) =
    let escaped = put_byte (unhex a) (unhex b) (query_unescape s) in
    let plain = put_char (if eqb (code c) b'+' then " " else c) (query_unescape (a ∷ (b ∷ s))) in
    if eqb (code c) b'%' then escaped else plain

pub code-byte : (n : ℕ) → n < 256 → code (byte n) ≡ n
unfolding byte
code-byte n h = ground arith

escape_test : query_escape "GET-http-a.b/é c;=1" ≡ "GET-http-a.b%2F%E9+c%3B%3D1"
unfolding query_escape
escape_test = refl

unescape_test : query_unescape "GET-http-a.b%2F%E9+c%3B%3D1" ≡ some "GET-http-a.b/é c;=1"
unfolding query_unescape
unescape_test = refl

unescape_errors : (query_unescape "a%2" ≡ none) × (query_unescape "%zz" ≡ none)
unfolding query_unescape
unescape_errors = (refl, refl)
