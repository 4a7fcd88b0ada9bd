-- ===== src/Text/RoundTrip.antt =====
-- url.QueryUnescape takes back what url.QueryEscape did, and an escaped text has no comma.
use Prim.Native.Char.{Char, code}
use Prim.Native.String.{[], ◌∷◌}
use text.Mathlib.TextEquality.{Char-path}
use souin.Prelude.{
  ℕ, ◌+◌, ◌*◌, ◌-◌, ◌⊎◌, ◌/◌, ◌%◌, ◌<◌, String, ◌≡◌, ◌≢◌, refl, ap, ◌∙◌, sym, true, false, some,
  inl, inr, Bool-cases, eqb, arith,
}
use souin.Text.Escape.{
  byte, code-byte, hex, is_plain, query_escape, query_unescape, unhex, put_byte, put_char,
}
use souin.Text.Members.{NoComma}

-- Every character of the text is a byte.
abbrev pub IsBytes : String → Type 0
IsBytes [] = Unit
IsBytes (c ∷ s) = (code c < 256) × IsBytes s

unhex-hex : (n : ℕ) → n < 16 → unhex (hex n) ≡ some n
unfolding unhex
unhex-hex n h = ground (arith, code-byte (48 + n), code-byte (65 + n - 10))

unescape-char :
    (c : Char) (s : String)
    → eqb (code c) b'%' ≡ false
    → eqb (code c) b'+' ≡ false
    → query_unescape (c ∷ s) ≡ put_char c (query_unescape s)
unfolding query_unescape
unescape-char c [] p q = rw (p, q)
unescape-char c (a ∷ []) p q = rw (p, q)
unescape-char c (a ∷ (b ∷ s)) p q = rw (p, q)

unescape-plus : (s : String) → query_unescape ("+" ∷ s) ≡ put_char " " (query_unescape s)
unfolding query_unescape
unescape-plus [] = refl
unescape-plus (a ∷ []) = refl
unescape-plus (a ∷ (b ∷ s)) = refl

unescape-percent :
    (a b : Char) (s : String)
    → query_unescape ("%" ∷ (a ∷ (b ∷ s))) ≡ put_byte (unhex a) (unhex b) (query_unescape s)
unfolding query_unescape
unescape-percent a b s = refl

byte-code : (c : Char) → code c < 256 → byte (code c / 16 * 16 + code c % 16) ≡ c
byte-code c h = Char-path _ c (code-byte _ (omega arith) ∙ omega arith)

plain_safe :
    (c : Char)
    → is_plain c ≡ true
    → (eqb (code c) b'%' ≡ false) × (eqb (code c) b'+' ≡ false) × (eqb (code c) b',' ≡ false)
unfolding is_plain
plain_safe c h = (ground arith, ground arith, ground arith)

hex_safe : (n : ℕ) → n < 16 → code (hex n) ≢ b','
hex_safe n h = ground (arith, code-byte (48 + n), code-byte (65 + n - 10))

-- The three ways in which a byte is escaped.
abbrev pub Escaped : Char → String → Type 0
Escaped c s =
    ((is_plain c ≡ true) × (query_escape (c ∷ s) ≡ (c ∷ query_escape s)))
    ⊎ ((code c ≡ 32) × (query_escape (c ∷ s) ≡ ("+" ∷ query_escape s)))
    ⊎ (query_escape (c ∷ s) ≡ ("%" ∷ (hex (code c / 16) ∷ (hex (code c % 16) ∷ query_escape s))))

pub escape_cases : (c : Char) (s : String) → Escaped c s
unfolding query_escape
escape_cases c s = elim (Bool-cases (is_plain c)) [
  | inl p ↦ inl (p, rw p)
  | inr q ↦ elim (Bool-cases (eqb (code c) 32)) [
    | inl p ↦ inr (inl (ground arith, rw (q, p)))
    | inr r ↦ inr (inr (rw (q, r)))
  ]
]

-- QueryUnescape gives back every text of bytes that QueryEscape was given.
pub query_unescape-query_escape :
    (s : String) → IsBytes s → query_unescape (query_escape s) ≡ some s
query_unescape-query_escape [] h = unfold query_unescape query_escape in refl
query_unescape-query_escape (c ∷ s) h =
    let ih = query_unescape-query_escape s h.1 in
    elim (escape_cases c s) [
      | inl (p, e) ↦
          let (q, r, _) = plain_safe c p in rw e (rw (unescape-char c (query_escape s) q r) (rw ih))
      | inr (inl (p, e)) ↦
          rw e
            (rw unescape-plus (rw ih (ap (λ (d : Char). some (d ∷ s)) (Char-path " " c (sym p)))))
      | inr (inr e) ↦ rw e (
          rw unescape-percent (
            rw (unhex-hex (code c / 16) (omega arith), unhex-hex (code c % 16) (omega arith), ih)
              (ap (λ (d : Char). some (d ∷ s)) (byte-code c h.0))))
    ]

pub query_escape-NoComma : (s : String) → IsBytes s → NoComma (query_escape s)
query_escape-NoComma [] h = unfold query_escape in tt
query_escape-NoComma (c ∷ s) h =
    let ih = query_escape-NoComma s h.1 in
    elim (escape_cases c s) [
      | inl (p, e) ↦ let (_, _, q) = plain_safe c p in rw e (ground arith, ih)
      | inr (inl (p, e)) ↦ rw e (omega arith, ih)
      | inr (inr e) ↦ rw e (
        omega arith,
        (hex_safe (code c / 16) (omega arith), (hex_safe (code c % 16) (omega arith), ih)),
      )
    ]

pub query_escape-ne-nil : (s : String) → s ≢ "" → query_escape s ≢ ""
query_escape-ne-nil [] n = absurd (n refl)
query_escape-ne-nil (c ∷ s) n = elim (escape_cases c s) [
  | inl (p, e) ↦ rw e (cc)
  | inr (inl (p, e)) ↦ rw e (cc)
  | inr (inr e) ↦ rw e (cc)
]
