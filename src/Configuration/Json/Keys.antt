-- ===== src/Configuration/Json/Keys.antt =====
-- How parseJSON reads the tokens of one key.
use mathlib.Core.Path.{subst}
use souin.Prelude.{
  ℕ, zero, suc, ◌≤◌, String, ◌≡◌, ◌≢◌, refl, Bool, true, false, Bool-cases, inl, inr, some, List,
  [], ◌∷◌, ◌==◌, All, length, arith, eq_iff,
}
use souin.Text.Numbers.{bool_value}
use souin.Context.Key.{KeyConfig}
use souin.Configuration.{no_key}
use souin.Configuration.Json.{
  Token, text, token, read_headers, directive, key_loop, flag_tokens, template_tokens, text_tokens,
  headers_tokens, key_tokens,
}

-- With more fuel than there are tokens, the loop over the directives ends with a key and a rest.
abbrev pub Reads : List Token → KeyConfig → KeyConfig → List Token → Type 0
Reads ts key key' rest = (n : ℕ) → length ts ≤ n → key_loop (suc n) ts key ≡ some (key', rest)

-- A directive that takes tokens, and the rest of the loop.
Reads-directive :
    (name : String) (ts ts' : List Token) (key key' last : KeyConfig) (rest : List Token)
    → (name == "}") ≡ false
    → directive name ts key ≡ some (key', ts')
    → length ts' ≤ length ts
    → Reads ts' key' last rest
    → Reads (text name ∷ ts) key last rest
unfolding key_loop
Reads-directive name ts ts' key key' last rest going step shorter reads zero le =
    absurd (omega arith)
Reads-directive name ts ts' key key' last rest going step shorter reads (suc n) le =
    rw (key_loop, step, going) (reads n (omega arith))

Reads-flag :
    (name : String) (set : Bool → KeyConfig) (b : Bool) (ts : List Token) (last : KeyConfig)
    (rest : List Token)
    → (name == "}") ≡ false
    → ((ts : List Token) → directive name (text "true" ∷ ts) (set false) ≡ some (set true, ts))
    → Reads ts (set b) last rest
    → Reads (flag_tokens name b ts) (set false) last rest
unfolding flag_tokens
Reads-flag name set false ts last rest going step reads = reads
Reads-flag name set true ts last rest going step reads =
    Reads-directive name (text "true" ∷ ts) ts (set false) (set true) last rest going (step ts)
      (omega arith) reads

Reads-template :
    (key : KeyConfig) (template : String) (ts : List Token) (last : KeyConfig) (rest : List Token)
    → Reads ts (record key { template = template }) last rest
    → Reads (template_tokens template ts) (record key { template = "" }) last rest
unfolding template_tokens directive token
Reads-template key template ts last rest reads = elim (Bool-cases (template == "")) [
  | inl e ↦ rw e (
      subst (λ t. Reads ts (record key { template = t }) last rest) ((eq_iff template "").0 e)
        reads)
  | inr e ↦ rw e (
      Reads-directive "template" (text template ∷ ts) ts _ (record key { template = template }) last
        rest refl refl (omega arith) reads)
]

-- Headers other than "]".
abbrev pub AreHeaders : List String → Type 0
AreHeaders hs = All (λ h. h ≢ "]") hs

not_bracket : (h : String) → h ≢ "]" → (h == "]") ≡ false
not_bracket h other = ground (arith, eq_iff h "]")

read_headers-text_tokens :
    (hs : List String) (ts : List Token)
    → AreHeaders hs
    → read_headers (text_tokens hs (text "]" ∷ ts)) ≡ some (hs, ts)
unfolding read_headers text_tokens
read_headers-text_tokens [] ts h = refl
read_headers-text_tokens (x ∷ hs) ts (h, all) =
    rw (read_headers-text_tokens hs ts all, not_bracket x h) refl

length-text_tokens : (hs : List String) (ts : List Token) → length ts ≤ length (text_tokens hs ts)
unfolding text_tokens
length-text_tokens [] ts = omega arith
length-text_tokens (x ∷ hs) ts = let i = length-text_tokens hs ts in omega arith

Reads-headers :
    (key : KeyConfig) (hs : List String) (ts : List Token) (last : KeyConfig) (rest : List Token)
    → AreHeaders hs
    → Reads ts (record key { headers = hs }) last rest
    → Reads (headers_tokens hs ts) (record key { headers = [] }) last rest
unfolding headers_tokens directive token
Reads-headers key [] ts last rest all reads = reads
Reads-headers key (x ∷ hs) ts last rest all reads =
    let shorter = length-text_tokens (x ∷ hs) (text "]" ∷ ts) in
    Reads-directive "headers" (text "[" ∷ text_tokens (x ∷ hs) (text "]" ∷ ts)) ts _
      (record key { headers = x ∷ hs }) last rest refl
      (rw (directive, read_headers-text_tokens (x ∷ hs) ts all) refl) (omega arith) reads

-- The tokens of a key are read back as that key.
pub Reads-key_tokens :
    (key : KeyConfig) (ts : List Token)
    → AreHeaders key.headers
    → Reads (text "{" ∷ key_tokens key ts) no_key key ts
unfolding key_tokens directive token key_loop bool_value
Reads-key_tokens key ts all =
    Reads-directive "{" (key_tokens key ts) (key_tokens key ts) no_key no_key key ts refl refl
      (omega arith)
      (Reads-flag "disable_body" (λ b. record no_key { disable_body = b }) key.disable_body _ key ts
        refl (λ _. refl)
        (Reads-flag "disable_host"
          (λ b. record no_key { disable_body = key.disable_body; disable_host = b })
          key.disable_host _ key ts refl (λ _. refl)
          (Reads-flag "disable_method"
            (λ b. record no_key {
              disable_body = key.disable_body;
              disable_host = key.disable_host;
              disable_method = b;
            })
            key.disable_method _ key ts refl (λ _. refl)
            (Reads-flag "disable_query"
              (λ b. record no_key {
                disable_body = key.disable_body;
                disable_host = key.disable_host;
                disable_method = key.disable_method;
                disable_query = b;
              })
              key.disable_query _ key ts refl (λ _. refl)
              (Reads-flag "disable_scheme"
                (λ b. record no_key {
                  disable_body = key.disable_body;
                  disable_host = key.disable_host;
                  disable_method = key.disable_method;
                  disable_query = key.disable_query;
                  disable_scheme = b;
                })
                key.disable_scheme _ key ts refl (λ _. refl)
                (Reads-flag "disable_vary"
                  (λ b. record no_key {
                    disable_body = key.disable_body;
                    disable_host = key.disable_host;
                    disable_method = key.disable_method;
                    disable_query = key.disable_query;
                    disable_scheme = key.disable_scheme;
                    disable_vary = b;
                  })
                  key.disable_vary _ key ts refl (λ _. refl)
                  (Reads-flag "sort_query"
                    (λ b. record no_key {
                      disable_body = key.disable_body;
                      disable_host = key.disable_host;
                      disable_method = key.disable_method;
                      disable_query = key.disable_query;
                      disable_scheme = key.disable_scheme;
                      disable_vary = key.disable_vary;
                      sort_query = b;
                    })
                    key.sort_query _ key ts refl (λ _. refl)
                    (Reads-flag "hash"
                      (λ b. record no_key {
                        disable_body = key.disable_body;
                        disable_host = key.disable_host;
                        disable_method = key.disable_method;
                        disable_query = key.disable_query;
                        disable_scheme = key.disable_scheme;
                        disable_vary = key.disable_vary;
                        sort_query = key.sort_query;
                        hash = b;
                      })
                      key.hash _ key ts refl (λ _. refl)
                      (Reads-flag "hide"
                        (λ b. record no_key {
                          disable_body = key.disable_body;
                          disable_host = key.disable_host;
                          disable_method = key.disable_method;
                          disable_query = key.disable_query;
                          disable_scheme = key.disable_scheme;
                          disable_vary = key.disable_vary;
                          sort_query = key.sort_query;
                          hash = key.hash;
                          hide = b;
                        })
                        key.hide _ key ts refl (λ _. refl)
                        (Reads-template
                          (record no_key {
                            disable_body = key.disable_body;
                            disable_host = key.disable_host;
                            disable_method = key.disable_method;
                            disable_query = key.disable_query;
                            disable_scheme = key.disable_scheme;
                            disable_vary = key.disable_vary;
                            sort_query = key.sort_query;
                            hash = key.hash;
                            hide = key.hide;
                          })
                          key.template _ key ts
                          (Reads-headers
                            (record no_key {
                              disable_body = key.disable_body;
                              disable_host = key.disable_host;
                              disable_method = key.disable_method;
                              disable_query = key.disable_query;
                              disable_scheme = key.disable_scheme;
                              disable_vary = key.disable_vary;
                              sort_query = key.sort_query;
                              hash = key.hash;
                              hide = key.hide;
                              template = key.template;
                            })
                            key.headers _ key ts all (λ n le. refl))))))))))))

length-flag_tokens :
    (name : String) (b : Bool) (ts : List Token) → length ts ≤ length (flag_tokens name b ts)
unfolding flag_tokens
length-flag_tokens name false ts = omega arith
length-flag_tokens name true ts = omega arith

length-template_tokens : (s : String) (ts : List Token) → length ts ≤ length (template_tokens s ts)
unfolding template_tokens
length-template_tokens s ts = ground arith

length-headers_tokens :
    (hs : List String) (ts : List Token) → length ts ≤ length (headers_tokens hs ts)
unfolding headers_tokens
length-headers_tokens [] ts = omega arith
length-headers_tokens (h ∷ hs) ts =
    let i = length-text_tokens (h ∷ hs) (text "]" ∷ ts) in omega arith

pub length-key_tokens :
    (key : KeyConfig) (ts : List Token) → suc (length ts) ≤ length (key_tokens key ts)
unfolding key_tokens
length-key_tokens key ts =
    grind (arith, length-flag_tokens, length-template_tokens, length-headers_tokens)
