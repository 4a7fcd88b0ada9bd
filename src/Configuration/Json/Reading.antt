-- ===== src/Configuration/Json/Reading.antt =====
-- What parseJSON reads of the JSON that MarshalJSON writes.
use mathlib.Core.Path.{subst}
use mathlib.Core.List.{append-nil, append_assoc}
use souin.Prelude.{
  ℕ, zero, suc, ◌≤◌, String, ◌≡◌, refl, ap, ◌∙◌, Bool, true, false, none, some, List, [], ◌∷◌, ◌++◌,
  ◌==◌, All, length, arith, all, sym, Bool-cases, inl, inr, Option,
}
use souin.Context.Key.{KeyConfig}
use souin.Configuration.{CacheKeys, no_key}
use souin.Configuration.Json.{
  Token, text, sprint, token, read_headers, directive, key_loop, rule_loop, parse_json, flag_tokens,
  template_tokens, headers_tokens, key_tokens, rules_tokens, is_written, marshal_json,
}
use souin.Configuration.Json.Keys.{Reads-key_tokens, AreHeaders, length-key_tokens}

module _ (compiles : String → Bool) where
  -- A rule that the loop reads as it is: its pattern compiles and is not "}", and none of its headers
  -- is "]".
  abbrev pub IsRule : String × KeyConfig → Type 0
  IsRule (pattern_, key) =
      ((pattern_ == "}") ≡ false) × (compiles pattern_ ≡ true) × AreHeaders key.headers

  rule_loop-rules :
      (rules keys : CacheKeys) (n : ℕ)
      → length (rules_tokens rules (text "}" ∷ [])) ≤ n
      → All IsRule rules
      → rule_loop compiles (suc n) (rules_tokens rules (text "}" ∷ [])) keys
        ≡ some (some (keys ++ rules))
  unfolding rule_loop rules_tokens
  rule_loop-rules [] keys zero le all = absurd (omega arith)
  rule_loop-rules [] keys (suc n) le all = rw (append-nil keys) refl
  rule_loop-rules ((pattern_, key) ∷ rules) keys zero le all = absurd (omega arith)
  rule_loop-rules ((pattern_, key) ∷ rules) keys (suc n) le ((other, valid, headers), all) =
      let later = rules_tokens rules (text "}" ∷ []) in
      let shorter = length-key_tokens key later in
      rw (other, Reads-key_tokens key later headers (suc n) (omega arith), valid)
        (rule_loop-rules rules (keys ++ (pattern_, key) ∷ []) n (omega arith) all
          ∙ ap (λ l. some (some l)) (append_assoc keys ((pattern_, key) ∷ []) rules))

  -- parseJSON on what MarshalJSON writes, with as much fuel as there are tokens, where the first key
  -- sets nothing: the first rule is lost, since three tokens are left out and not one, and every later
  -- rule is read back as it was. All patterns are printable ASCII without a quote and without a
  -- backslash, since MarshalJSON does not escape them, and all other texts are ASCII; the later patterns
  -- compile and are not "}", and no header is "]".
  pub parse_json-marshal_json :
      (pattern_ : String) (rules : CacheKeys) (ts : List Token) (n : ℕ)
      → marshal_json ((pattern_, no_key) ∷ rules) ≡ some ts
      → length ts ≤ n
      → All IsRule rules
      → parse_json compiles n ts [] ≡ some (some rules)
  unfolding parse_json marshal_json rules_tokens key_tokens flag_tokens template_tokens
      headers_tokens token rule_loop
  parse_json-marshal_json pattern_ rules ts n written le all_ =
      let tokens = text "{" ∷ rules_tokens ((pattern_, no_key) ∷ rules) (text "}" ∷ []) in
      let same : tokens ≡ ts = elim (Bool-cases (all is_written ((pattern_, no_key) ∷ rules))) [
        | inl e ↦ let written' : some tokens ≡ some ts = rw e at written in cc
        | inr e ↦
            let written' : Path (Option (List Token)) none (some ts) = rw e at written in
            absurd (cc)
      ] in
      let le' : length tokens ≤ n = rw (sym same) at le in
      subst (λ l. parse_json compiles n l [] ≡ some (some rules)) same (read n le')
    where
      read :
          (m : ℕ)
          → length (text "{" ∷ rules_tokens ((pattern_, no_key) ∷ rules) (text "}" ∷ [])) ≤ m
          → parse_json compiles m
              (text "{" ∷ rules_tokens ((pattern_, no_key) ∷ rules) (text "}" ∷ []))
              []
            ≡ some (some rules)
      read zero le' = absurd (omega arith)
      read (suc zero) le' = absurd (omega arith)
      read (suc (suc m)) le' = rule_loop-rules rules [] m (omega arith) all_

  -- A loop over the headers that meets no "]" does not end.
  read_headers-none :
      (ts : List Token) → All (λ t. (sprint t == "]") ≡ false) ts → read_headers ts ≡ none
  unfolding read_headers
  read_headers-none [] h = refl
  read_headers-none (t ∷ ts) (other, h) = rw (other, read_headers-none ts h) refl

  -- parseJSON does not end on a rule whose headers are no list, if no list follows: with no fuel it
  -- returns, so it goes on for ever.
  pub parse_json-headers_none :
      (a b c : Token) (pattern_ value : String) (ts : List Token) (keys : CacheKeys) (n : ℕ)
      → (pattern_ == "}") ≡ false
      → (value == "]") ≡ false
      → All (λ t. (sprint t == "]") ≡ false) ts
      → parse_json compiles n
          (a ∷ b ∷ c ∷ text pattern_ ∷ text "{" ∷ text "headers" ∷ text value ∷ ts)
          keys
        ≡ none
  unfolding parse_json rule_loop key_loop directive token
  parse_json-headers_none a b c pattern_ value ts keys zero rule text_ none_ = refl
  parse_json-headers_none a b c pattern_ value ts keys (suc zero) rule text_ none_ = rw rule refl
  parse_json-headers_none a b c pattern_ value ts keys (suc (suc n)) rule text_ none_ =
      rw (rule, text_, read_headers-none ts none_) refl
