-- ===== src/Tests/Keys.antt =====
-- The keys of requests and of variants.
use souin.Prelude.{String, ◌≡◌, refl, inl, inr, Bool, true, false, [], ◌∷◌, All, ◌↔◌, arith}
use souin.Text.{trim_space}
use souin.Text.Escape.{query_escape}
use souin.Http.{Request}
use souin.Http.Headers
use souin.Http.Headers.{Header}
use souin.Rfc.Vary.{varied_value, get_varied_cache_key}
use souin.Rfc.Vary.Keys
use souin.Rfc.Vary.Keys.{get_varied_cache_key_iff, varied_value_collision}
use souin.Context.Key.{KeyRule, key_of_rule}
use souin.Context.Laws.{Agree, key_of_rule-Agree}
use souin.Tests.Data.{request}

abbrev rule : KeyRule
rule = record {
  disable_body = false;
  disable_host = false;
  disable_method = false;
  disable_query = true;
  sort_query = false;
  disable_vary = false;
  disable_scheme = false;
  displayable = true;
  hash = false;
  headers = [];
  template = "";
}

-- The same page with a query, which the rule disables.
abbrev queried : Request
queried = record request { raw_query = "a=b" }

abbrev no_template : String → Request → String
no_template t r = t

abbrev no_match : String → String → Bool
no_match p u = false

abbrev as_sorted : String → String
as_sorted q = q

abbrev star : Header
star = ("Vary", "*" ∷ []) ∷ []

queried-Agree : Agree rule request queried
queried-Agree = record {
  path = refl;
  method = inr refl;
  scheme = inr refl;
  host = inr refl;
  query = inl refl;
  body = inr refl;
  headers = tt;
}

key_of_rule-Agree_example :
    (key_of_rule no_template no_match as_sorted request rule).key
    ≡ (key_of_rule no_template no_match as_sorted queried rule).key
key_of_rule-Agree_example =
    key_of_rule-Agree no_template no_match as_sorted rule request queried refl queried-Agree

-- The request, with blanks around the value of a header.
abbrev blank_encoding : Request
blank_encoding = record request { header = ("Accept-Encoding", " gzip" ∷ []) ∷ [] }

abbrev gzip_encoding : Request
gzip_encoding = record request { header = ("Accept-Encoding", "gzip" ∷ []) ∷ [] }

get_varied_cache_key_iff_example :
    ((get_varied_cache_key blank_encoding ("Accept-Encoding" ∷ [])).0
      ≡ (get_varied_cache_key gzip_encoding ("Accept-Encoding" ∷ [])).0)
    ↔ All (Keys.Agree blank_encoding gzip_encoding) ("Accept-Encoding" ∷ [])
unfolding trim_space souin.Text.contains Headers.get Headers.lookup souin.Text.Case.canonical_key
get_varied_cache_key_iff_example =
    get_varied_cache_key_iff blank_encoding gzip_encoding ("Accept-Encoding" ∷ []) refl refl
      ((refl, refl), tt) ((refl, refl), tt)

varied_value_collision_example : varied_value (query_escape "a;b") ≡ varied_value "a;b"
unfolding trim_space souin.Text.contains
varied_value_collision_example = varied_value_collision "a;b" (ground arith) refl refl
