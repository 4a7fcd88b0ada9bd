-- ===== src/Api/Invalidation.antt =====
-- The keys that a POST invalidates in HandleRequest of pkg/api/souin.go.
pub mod Selected
use souin.Prelude.{
  String, Bool, true, false, ◌||◌, ◌&&◌, not, Option, none, some, List, [], ◌∷◌, ◌==◌, any, keep,
  if◌then◌else◌,
}
use souin.Text.{◌<>◌, contains, has_suffix}

-- invalidationType; `other` is any other text.
pub data InvalidationType : Type 0 where
  uri uri_prefix origin group other : InvalidationType

pub record Invalidation : Type 0 where
  pub type_ : InvalidationType
  pub selectors : List String
  pub groups : List String
  pub purge : Bool

-- The host and the path of http.NewRequest for a selector; `none` is an error.
abbrev pub ParseUrl : Type 0
ParseUrl = String → Option (String × String)

-- The texts that the listed keys are compared with; only selectors without a scheme count.
unfoldable pub body_keys : ParseUrl → (String × String → String) → List String → List String
body_keys parse text [] = []
body_keys parse text (k ∷ selectors) =
    let rest = body_keys parse text selectors in
    let parsed : List String = elim (parse ("//" <> k)) [
      | none ↦ rest
      | some url ↦ text url ∷ rest
    ] in
    if contains k "//" then rest else parsed

abbrev pub uri_text : String × String → String
uri_text (host, path) = host <> ("-" <> path)

abbrev pub origin_text : String × String → String
origin_text (host, path) = host

unfoldable pub matches_uri : String → String → Bool
matches_uri all_key bk =
    contains all_key bk && (contains all_key (bk <> "-") && has_suffix all_key bk)

unfoldable pub matches_uri_prefix : String → String → Bool
matches_uri_prefix all_key bk =
    contains all_key bk
    && (contains all_key (bk <> "-")
        || (contains all_key (bk <> "?")
            || (contains all_key (bk <> "/") || has_suffix all_key bk)))

-- The listed keys that one of the texts selects.
unfoldable pub selected : (String → String → Bool) → List String → List String → List String
selected test body listed = keep (λ all_key. any (test all_key) body) listed

-- The keys for the types that list all keys.
unfoldable pub keys_to_invalidate : ParseUrl → Invalidation → List String → List String
keys_to_invalidate parse inv listed = elim inv.type_ [
  | uri ↦ selected matches_uri (body_keys parse uri_text inv.selectors) listed
  | uri_prefix ↦ selected matches_uri_prefix (body_keys parse uri_text inv.selectors) listed
  | origin ↦ selected contains (body_keys parse origin_text inv.selectors) listed
  | group ↦ []
  | other ↦ []
]
