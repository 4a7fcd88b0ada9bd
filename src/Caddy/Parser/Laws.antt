-- ===== src/Caddy/Parser/Laws.antt =====
-- What parseConfiguration of the Caddy plugin keeps of the configuration that it starts from.
use mathlib.Core.Path.{subst}
use mathlib.Core.List.{append-nil, append_assoc}
use souin.Prelude.{
  ℕ, zero, suc, String, ◌≡◌, refl, sym, ap, ◌∙◌, Bool, true, false, Option, none, some, List, [],
  ◌++◌, Bool-cases, inl, inr,
}
use souin.Prelude.Int.{ℤ}
use souin.Text.{◌<>◌, join}
use souin.Text.Numbers.{parse_uint}
use souin.Caddy.{Configuration}
use souin.Caddy.Dispenser.{Dispenser, ok, P, ◌>>=◌, pure, fail, block}
use souin.Caddy.Dispenser.Yields.{
  Good, Yields, Yields-pure, Yields-fail, Yields-bind, Yields-weak, Good-keeps, block-Good, yields,
}
use souin.Caddy.Parser.Root.{
  set_dc, block_option, max_body, mode, root_line, segments, parse_configuration,
}

abbrev pub Extends : {A : Type 0} → List A → List A → Type 0
Extends {A} xs ys = (added : List A) × (ys ≡ xs ++ added)

-- The parts that no line may change, and the lists that a line may only extend.
pub record Kept (is_global : Bool) (cfg cfg' : Configuration) : Type 0 where
  pub api : is_global ≡ false → cfg'.api ≡ cfg.api
  pub urls : cfg'.urls ≡ cfg.urls
  pub verbs : Extends cfg.default_cache.allowed_http_verbs cfg'.default_cache.allowed_http_verbs
  pub codes :
      Extends cfg.default_cache.allowed_additional_status_codes
        cfg'.default_cache.allowed_additional_status_codes

Extends-refl : {A : Type 0} (xs : List A) → Extends xs xs
Extends-refl xs = ([], sym (append-nil xs))

Extends-trans : {A : Type 0} (xs ys zs : List A) → Extends xs ys → Extends ys zs → Extends xs zs
Extends-trans xs ys zs (a, e) (b, e') = (a ++ b, e' ∙ ap (λ l. l ++ b) e ∙ append_assoc xs a b)

Kept-trans :
    (is_global : Bool) (c c' c'' : Configuration)
    → Kept is_global c c'
    → Kept is_global c' c''
    → Kept is_global c c''
Kept-trans is_global c c' c'' h k = record {
  api = λ e. k.api e ∙ h.api e;
  urls = k.urls ∙ h.urls;
  verbs = Extends-trans _ _ _ h.verbs k.verbs;
  codes = Extends-trans _ _ _ h.codes k.codes;
}

Kept-refl : (is_global : Bool) (c : Configuration) → Kept is_global c c
Kept-refl is_global c = record {
  api = λ e. refl;
  urls = refl;
  verbs = Extends-refl _;
  codes = Extends-refl _;
}

-- A line that sets none of the fields.
Kept-same :
    (is_global : Bool) (c c' : Configuration)
    → c'.api ≡ c.api
    → c'.urls ≡ c.urls
    → c'.default_cache.allowed_http_verbs ≡ c.default_cache.allowed_http_verbs
    → c'.default_cache.allowed_additional_status_codes
      ≡ c.default_cache.allowed_additional_status_codes
    → Kept is_global c c'
Kept-same is_global c c' a u v s = record {
  api = λ e. a;
  urls = u;
  verbs = ([], v ∙ sym (append-nil _));
  codes = ([], s ∙ sym (append-nil _));
}

Kept-api : (c : Configuration) (a : _) → Kept true c (record c { api = a })
Kept-api c a = record {
  api = λ e. absurd (cc);
  urls = refl;
  verbs = Extends-refl _;
  codes = Extends-refl _;
}

Kept-verbs :
    (is_global : Bool) (c : Configuration) (words : List String)
    → Kept is_global c (
        set_dc c (record c.default_cache {
          allowed_http_verbs = c.default_cache.allowed_http_verbs ++ words;
        }))
Kept-verbs is_global c words = record {
  api = λ e. refl;
  urls = refl;
  verbs = (words, refl);
  codes = Extends-refl _;
}

Kept-codes :
    (is_global : Bool) (c : Configuration) (added : List ℤ)
    → Kept is_global c (
        set_dc c (record c.default_cache {
          allowed_additional_status_codes =
              c.default_cache.allowed_additional_status_codes ++ added;
        }))
Kept-codes is_global c added = record {
  api = λ e. refl;
  urls = refl;
  verbs = Extends-refl _;
  codes = (added, refl);
}

module _ {D : Type 0} (h : Dispenser D) (parse_duration : String → Option ℤ)
    (parse_float : String → String) (compiles : String → Bool) (fuel : ℕ) where
  block_option-Kept :
      (is_global : Bool) (option : String) (c : Configuration)
      → Yields
          (Kept is_global c)
          (block_option h parse_duration parse_float compiles fuel is_global option c)
  unfolding block_option
  block_option-Kept true option c = search (yields, Kept-api, Kept-same) depth 60 fits 3000
  block_option-Kept false option c = search (yields, Kept-same) depth 60 fits 3000

  max_body-Kept :
      (is_global : Bool) (words : List String) (c : Configuration)
      → Yields (Kept is_global c) (max_body h parse_duration parse_float compiles fuel words c)
  unfolding max_body
  max_body-Kept is_global words c = Yields-bind _ _ _ (λ a. by_number (parse_uint 64 a))
    where
      by_number :
          (o : Option ℕ)
          → Yields (Kept is_global c) (elim o as (λ _. P D Configuration) [
            | none ↦ fail ("unsupported max_cacheable_body_bytes: [" <> (join words " " <> "]"))
            | some n ↦ pure (set_dc c (record c.default_cache { max_body_bytes = n }))
          ])
      by_number none = Yields-fail _ _
      by_number (some n) = Yields-pure _ _ (Kept-same _ _ _ refl refl refl refl)

  mode-Kept :
      (is_global : Bool) (words : List String) (c : Configuration)
      → Yields (Kept is_global c) (mode h parse_duration parse_float compiles fuel words c)
  unfolding mode
  mode-Kept is_global words c = search (yields, Kept-same) depth 60

  root_line-Kept :
      (is_global : Bool) (option : String) (c : Configuration)
      → Yields
          (Kept is_global c)
          (root_line h parse_duration parse_float compiles fuel is_global option c)
  unfolding root_line
  root_line-Kept is_global option c =
      search
        (yields, Kept-verbs, Kept-codes, Kept-same, max_body-Kept, mode-Kept, block_option-Kept)
        depth 60 fits 3000

  segments-Good :
      (is_global : Bool) (c : Configuration) (rest : ℕ) (c' : Configuration) (d : D)
      → Kept is_global c c'
      → Good
          (Kept is_global c)
          (segments h parse_duration parse_float compiles fuel is_global rest c' d)
  unfolding segments ◌>>=◌
  segments-Good is_global c zero c' d k = tt
  segments-Good is_global c (suc rest) c' d k =
      let body = root_line h parse_duration parse_float compiles fuel is_global in
      let d' = (h.next d).1 in
      elim (Bool-cases (h.next d).0) [
        | inl more ↦ rw more (
            Good-keeps (Kept is_global c) (Kept is_global c) (block h body fuel c' d')
              (λ c''. segments h parse_duration parse_float compiles fuel is_global rest c'')
              (block-Good h (Kept is_global c) body
                (λ option r i.
                  Yields-weak (Kept is_global r) (Kept is_global c) (body option r)
                    (λ r'. Kept-trans is_global c r r' i) (root_line-Kept is_global option r))
                fuel c' d' k)
              (λ c'' d'' i. segments-Good is_global c rest c'' d'' i))
        | inr over ↦ rw over k
      ]

  -- A successful parseConfiguration extends the allowed verbs and status codes that it finds, leaves
  -- the URLs alone, and sets the API only if the block is the global one.
  pub parse_configuration-Kept :
      (is_global : Bool) (c c' : Configuration) (d d' : D)
      → parse_configuration h parse_duration parse_float compiles fuel is_global c d ≡ ok (c', d')
      → Kept is_global c c'
  unfolding parse_configuration
  parse_configuration-Kept is_global c c' d d' e =
      subst (Good (Kept is_global c)) e (segments-Good is_global c fuel c d (Kept-refl is_global c))
