-- ===== src/Text/Safe.antt =====
-- The bytes of an escaped text: neither separators nor blanks.
use Prim.Native.Char.{Char, code}
use Prim.Native.String.{[], ◌∷◌}
use souin.Prelude.{
  ℕ, ◌/◌, ◌%◌, ◌<◌, ◌-◌, ◌+◌, String, ◌≡◌, refl, Bool, true, false, ◌||◌, inl, inr, eqb, arith,
}
use souin.Text.{contains, is_space, trim_left_of, trim_right_of, trim_space}
use souin.Text.Escape.{code-byte, hex, is_plain, query_escape}
use souin.Text.RoundTrip.{IsBytes, escape_cases}

abbrev safe : Char → Bool
safe c = is_plain c || eqb (code c) b'+' || eqb (code c) b'%'

abbrev pub IsSafe : String → Type 0
IsSafe [] = Unit
IsSafe (c ∷ s) = (safe c ≡ true) × IsSafe s

hex_plain : (n : ℕ) → n < 16 → is_plain (hex n) ≡ true
unfolding is_plain
hex_plain n h = ground (arith, code-byte (48 + n), code-byte (65 + n - 10))

pub query_escape-IsSafe : (s : String) → IsBytes s → IsSafe (query_escape s)
query_escape-IsSafe [] h = unfold query_escape in tt
query_escape-IsSafe (c ∷ s) h =
    let ih = query_escape-IsSafe s h.1 in
    elim (escape_cases c s) [
      | inl (p, e) ↦ rw e (rw p, ih)
      | inr (inl (p, e)) ↦ rw e (unfold is_plain in refl, ih)
      | inr (inr e) ↦ rw e (
        (unfold is_plain in refl),
        (
          rw (hex_plain (code c / 16) (omega arith)),
          (rw (hex_plain (code c % 16) (omega arith)), ih),
        ),
      )
    ]

pub not-contains : (s : String) → IsSafe s → (contains s ";" ≡ false) × (contains s ":" ≡ false)
unfolding contains is_plain
not-contains [] h = (refl, refl)
not-contains (c ∷ s) h = let ih = not-contains s h.1 in (ground arith, ground arith)

trim_left-IsSafe : (s : String) → IsSafe s → trim_left_of is_space s ≡ s
unfolding trim_left_of is_plain
trim_left-IsSafe [] h = refl
trim_left-IsSafe (c ∷ s) h = ground arith

trim_right-IsSafe : (s : String) → IsSafe s → trim_right_of is_space s ≡ s
unfolding trim_right_of is_plain
trim_right-IsSafe [] h = refl
trim_right-IsSafe (c ∷ []) h = ground arith
trim_right-IsSafe (c ∷ (d ∷ s)) h = rw (trim_right-IsSafe (d ∷ s) h.1)

pub trim_space-IsSafe : (s : String) → IsSafe s → trim_space s ≡ s
unfolding trim_space
trim_space-IsSafe s h = rw (trim_left-IsSafe s h) (trim_right-IsSafe s h)
