-- ===== src/Context/Laws.antt =====
-- Which requests get one key.
use text.Mathlib.TextLemmas.{append_cancel_right}
use souin.Prelude.{
  arith, String, ◌≡◌, refl, ap, sym, ◌∙◌, ◌⊎◌, Bool, true, false, inl, inr, ◌&&◌, not, List, [],
  ◌∷◌, ◌==◌, All, arith, if◌then◌else◌,
}
use souin.Text.{◌<>◌}
use souin.Http.{Request}
use souin.Http.Headers
use souin.Context.Key.{KeyRule, header_values, parse_key_informations, assemble, key_of_rule}

-- Two requests agree on all that a rule puts into the key.
abbrev pub SameValues : Request → Request → List String → Type 0
SameValues req req' headers =
    All (λ hn. Headers.get req.header hn ≡ Headers.get req'.header hn) headers

pub record Agree (rule : KeyRule) (req req' : Request) : Type 0 where
  pub path : req.path ≡ req'.path
  pub method : (rule.disable_method ≡ true) ⊎ (req.method ≡ req'.method)
  pub scheme : (rule.disable_scheme ≡ true) ⊎ (req.tls ≡ req'.tls)
  pub host : (rule.disable_host ≡ true) ⊎ (req.host ≡ req'.host)
  pub query : (rule.disable_query ≡ true) ⊎ (req.raw_query ≡ req'.raw_query)
  pub body : (rule.disable_body ≡ true) ⊎ (req.context.hash_body ≡ req'.context.hash_body)
  pub headers : SameValues req req' rule.headers

header_values-Same :
    (req req' : Request) (headers : List String)
    → SameValues req req' headers
    → header_values req headers ≡ header_values req' headers
unfolding header_values
header_values-Same req req' [] h = refl
header_values-Same req req' (hn ∷ headers) h =
    ground (arith, header_values-Same req req' headers h.1)

same_method :
    (off : Bool) (m m' rest : String)
    → off ≡ false
    → (if off then "" else m <> "-") <> rest ≡ (if off then "" else m' <> "-") <> rest
    → m ≡ m'
same_method false m m' rest e h =
    append_cancel_right m m' "-" (append_cancel_right (m <> "-") (m' <> "-") rest h)
same_method true m m' rest e h = ground arith

module _ (replace_all : String → Request → String) (matches : String → String → Bool)
    (encode_query : String → String) where
  -- Without a template, the key is assembled from the parts.
  key_without_template :
      (rule : KeyRule) (req : Request)
      → rule.template ≡ ""
      → (key_of_rule replace_all matches encode_query req rule).key
        ≡ assemble replace_all matches encode_query req
            (parse_key_informations replace_all matches encode_query req rule)
  unfolding key_of_rule
  key_without_template rule req t = rw t refl

  same_part :
      {A : Type 0}
      → (off : Bool) (f : A → String) (a a' : A) → (off ≡ true) ⊎ (a ≡ a')
      → (if off then "" else f a) ≡ (if off then "" else f a')
  same_part off f a a' (inl e) = rw e refl
  same_part off f a a' (inr e) = ap (λ x. if off then "" else f x) e

  query_part : KeyRule → String → String
  query_part k q =
      if not k.disable_query && not (q == "")
      then "?" <> (if k.sort_query then encode_query q else q)
      else ""

  same_query :
      (k : KeyRule) (q q' : String)
      → (k.disable_query ≡ true) ⊎ (q ≡ q')
      → query_part k q ≡ query_part k q'
  unfolding query_part
  same_query k q q' (inl e) = rw e refl
  same_query k q q' (inr e) = ap (query_part k) e

  -- Without a template, requests that agree on what the rule leaves enabled have one key.
  pub key_of_rule-Agree :
      (rule : KeyRule) (req req' : Request)
      → rule.template ≡ ""
      → Agree rule req req'
      → (key_of_rule replace_all matches encode_query req rule).key
        ≡ (key_of_rule replace_all matches encode_query req' rule).key
  unfolding parse_key_informations assemble query_part
  key_of_rule-Agree rule req req' t a =
      rw
        (
          key_without_template rule req t,
          key_without_template rule req' t,
          same_part rule.disable_method (λ m. m <> "-") req.method req'.method a.method,
          same_part rule.disable_scheme (λ s. if s then "https-" else "http-") req.tls req'.tls
              a.scheme,
          same_part rule.disable_host (λ m. m <> "-") req.host req'.host a.host,
          same_part rule.disable_body (λ m. m) req.context.hash_body req'.context.hash_body a.body,
          same_query rule req.raw_query req'.raw_query a.query,
          header_values-Same req req' rule.headers a.headers,
          a.path,
        )
        refl

  -- Requests that differ in their method alone have one key only if the rule disables the method.
  pub key_of_rule_methods :
      (rule : KeyRule) (req : Request) (method : String)
      → rule.template ≡ ""
      → rule.disable_method ≡ false
      → (key_of_rule replace_all matches encode_query req rule).key
        ≡ (key_of_rule replace_all matches encode_query (record req { method = method }) rule).key
      → req.method ≡ method
  unfolding parse_key_informations assemble
  key_of_rule_methods rule req method t enabled same =
      let changed = record req { method = method } in
      same_method rule.disable_method req.method method _ enabled
        (sym (key_without_template rule req t) ∙ (same ∙ key_without_template rule changed t))
