-- ===== src/Tests/Tags.antt =====
-- The tags: storing, purging, listing and batches.
use souin.Prelude.{
  String, ◌≡◌, ◌≢◌, refl, inl, inr, ◌↔◌, true, [], ◌∷◌, Has, All, eq_iff, arith, concat,
}
use souin.Prelude.Int.{pos, ◌+ℤ◌}
use souin.Text.{contains, has_prefix}
use souin.Text.Escape.{query_escape}
use souin.Text.RoundTrip.{IsBytes}
use souin.Text.Members.{NoComma}
use souin.Text.Case.{canonical_key}
use souin.Http.Headers
use souin.Http.Headers.{Header}
use souin.Storage.Default.Laws.{default_storer-laws}
use souin.Surrogate.{
  unique_tag, parse_headers, surrogate_control, surrogate_key, candidate_header, find_candidate,
}
use souin.Surrogate.Base.{store, purge, stores}
use souin.Surrogate.Unique.{Comes, unique_tag_iff}
use souin.Surrogate.Store.{Survives, Has-purge-store}
use souin.Surrogate.Cdn.{process_batches}
use souin.Surrogate.Cdn.Batches.{IsBatch, process_batches_lem}
use souin.Tests.Data.{library, storer, no_tags}

abbrev tagged_response : Header
tagged_response = ("Surrogate-Key", "news, home" ∷ []) ∷ []

abbrev purge_request : Header
purge_request = ("Surrogate-Key", "home" ∷ []) ∷ []

key-NoComma : NoComma "key"
key-NoComma = ground arith

abbrev tag_key : String
tag_key = "key"

key-ne-nil : tag_key ≢ ""
key-ne-nil = λ e. ground (arith, eq_iff tag_key "")

-- A tag that is stored lives for a year.
stored-alive : (default_storer-laws library).alive (pos 0) no_tags.duration (pos 0) ≡ true
unfolding ◌+ℤ◌
stored-alive = refl

abbrev page_key : String
page_key = "GET-https-example.com-/page"

page_key-IsBytes : IsBytes page_key
page_key-IsBytes = ground arith

page_key-ne-nil : page_key ≢ ""
page_key-ne-nil = λ e. ground (arith, eq_iff page_key "")

page_key-Survives : Survives page_key
unfolding query_escape contains has_prefix
page_key-Survives = inl refl

unique_tag_iff_example :
    Has "b" (unique_tag ("a" ∷ "b" ∷ "a" ∷ [])) ↔ Comes "b" ("a" ∷ "b" ∷ "a" ∷ [])
unique_tag_iff_example = unique_tag_iff ("a" ∷ "b" ∷ "a" ∷ []) "b"

Has-purge-store_example :
    Has page_key
      (purge storer
        (pos 0)
        purge_request
        (store storer (pos 0) tagged_response page_key "/page" no_tags)).0
unfolding stores parse_headers surrogate_control surrogate_key candidate_header find_candidate
    Headers.lookup canonical_key
Has-purge-store_example =
    Has-purge-store storer (default_storer-laws library) (pos 0) tagged_response purge_request
      page_key "/page" "home" no_tags stored-alive page_key-IsBytes page_key-ne-nil
      page_key-Survives refl (inr (inl refl)) (inl refl)

process_batches_lem_example :
    (concat (process_batches ("a" ∷ "b" ∷ [])) ≡ "a" ∷ "b" ∷ [])
    × All IsBatch (process_batches ("a" ∷ "b" ∷ []))
process_batches_lem_example = process_batches_lem ("a" ∷ "b" ∷ [])
