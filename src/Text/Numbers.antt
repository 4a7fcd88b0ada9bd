-- ===== src/Text/Numbers.antt =====
-- strconv.Itoa and strconv.Atoi.
use Prim.Native.Char.{code}
use Prim.Native.String.{[], ◌∷◌}
use souin.Prelude.{
  ℕ, zero, suc, ◌+◌, ◌-◌, ◌*◌, ◌/◌, ◌%◌, ◌^◌, String, ◌≡◌, refl, Bool, true, false, ◌&&◌, ◌||◌,
  ◌==◌, not, Option, none, some, eqb, ltb, leb, if◌then◌else◌,
}
use souin.Prelude.Int.{ℤ, pos, negsuc, sub_ℕ}
use souin.Text.Escape.{byte}

-- The decimal digits of `n` before a text; a number has no more digits than `fuel`.
unfoldable pub digits_from : ℕ → ℕ → String → String
unfolding byte
digits_from zero n s = s
digits_from (suc fuel) n s =
    let later = digits_from fuel (n / 10) (byte (b'0' + n % 10) ∷ s) in
    if ltb n 10 then byte (b'0' + n) ∷ s else later

unfoldable pub itoa : ℤ → String
unfolding digits_from
itoa (pos n) = digits_from (suc n) n ""
itoa (negsuc n) = "-" ∷ digits_from (suc (suc n)) (suc n) ""

unfoldable pub read_digits : ℕ → String → Option ℕ
read_digits n [] = some n
read_digits n (c ∷ s) =
    let rest = read_digits (n * 10 + (code c - b'0')) s in
    if leb b'0' (code c) && leb (code c) b'9' then rest else none

abbrev digits : String → Option ℕ
digits [] = none
digits (c ∷ s) = read_digits 0 (c ∷ s)

abbrev signed : Bool → Option ℕ → Option ℤ
signed minus none = none
signed true (some n) = if leb n (2 ^ 63) then some (sub_ℕ 0 n) else none
signed false (some n) = if ltb n (2 ^ 63) then some (pos n) else none

-- strconv.Atoi: `none` is an error, and atoi_value is the value beside it.
unfoldable pub atoi : String → Option ℤ
unfolding read_digits
atoi [] = none
atoi (c ∷ s) =
    if eqb (code c) b'-'
    then signed true (digits s)
    else if eqb (code c) b'+'
    then signed false (digits s)
    else signed false (read_digits 0 (c ∷ s))

abbrev clamped : Bool → Option ℕ → ℤ
clamped minus none = pos 0
clamped true (some n) = if leb n (2 ^ 63) then sub_ℕ 0 n else sub_ℕ 0 (2 ^ 63)
clamped false (some n) = if ltb n (2 ^ 63) then pos n else pos (2 ^ 63 - 1)

-- The loop of strconv.ParseUint with its value beside an error: it stops with the greatest number at
-- the digit that leaves the range, whatever follows, and `none` is an error of the syntax.
unfoldable pub value_digits : ℕ → ℕ → String → Option ℕ
value_digits greatest n [] = some n
value_digits greatest n (c ∷ s) =
    let more = n * 10 + (code c - b'0') in
    let rest = value_digits greatest more s in
    if not (leb b'0' (code c) && leb (code c) b'9')
    then none
    else if leb 1_844_674_407_370_955_162 n || ltb greatest more
    then some greatest
    else rest

abbrev values : ℕ → String → Option ℕ
values greatest [] = none
values greatest (c ∷ s) = value_digits greatest 0 (c ∷ s)

-- n, _ := strconv.Atoi(s): zero, or an end of the range, where there is an error.
unfoldable pub atoi_value : String → ℤ
unfolding value_digits
atoi_value [] = pos 0
atoi_value (c ∷ s) =
    if eqb (code c) b'-'
    then clamped true (values (2 ^ 64 - 1) s)
    else if eqb (code c) b'+'
    then clamped false (values (2 ^ 64 - 1) s)
    else clamped false (value_digits (2 ^ 64 - 1) 0 (c ∷ s))

-- strconv.ParseUint(s, 10, width), and its value beside an error.
unfoldable pub parse_uint : ℕ → String → Option ℕ
unfolding read_digits
parse_uint width s = elim (digits s) [
  | none ↦ none
  | some n ↦ if ltb n (2 ^ width) then some n else none
]

unfoldable pub uint_value : ℕ → String → ℕ
unfolding value_digits
uint_value width s = elim (values (2 ^ width - 1) s) [ none ↦ 0 | some n ↦ n ]

-- b, _ := strconv.ParseBool(s)
unfoldable pub bool_value : String → Bool
bool_value s = s == "1" || s == "t" || s == "T" || s == "TRUE" || s == "true" || s == "True"

number_tests :
    (itoa (pos 1200) ≡ "1200")
    × (itoa (negsuc 9) ≡ "-10")
    × (atoi "-10" ≡ some (negsuc 9))
    × (atoi "12x" ≡ none)
    × (atoi_value "99999999999999999999" ≡ pos (2 ^ 63 - 1))
    × (atoi_value "99999999999999999999x" ≡ pos (2 ^ 63 - 1))
    × (atoi_value "9999999999999999999x" ≡ pos 0)
    × (atoi_value "-12" ≡ negsuc 11)
    × (uint_value 32 "4294967296" ≡ 4294967295)
    × (bool_value "yes" ≡ false)
unfolding itoa atoi atoi_value uint_value bool_value
number_tests = (refl, refl, refl, refl, refl, refl, refl, refl, refl, refl)
