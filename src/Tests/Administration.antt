-- ===== src/Tests/Administration.antt =====
-- The administration: eviction, invalidation and purges.
use souin.Prelude.{
  String, ◌≡◌, ◌≢◌, refl, true, false, ◌&&◌, some, [], ◌∷◌, ◌==◌, keep, eq_iff, arith,
}
use souin.Prelude.Int.{ℤ, pos}
use souin.Text.{◌<>◌, cut_prefix, cut_prefix_from}
use souin.Storage.{KeyIndex, StorageMapper}
use souin.Entries.{load}
use souin.Storage.Default
use souin.Storage.Default.{Default, item}
use souin.Storage.Default.Laws.{default_storer-laws}
use souin.Api.{ApiLibrary, SouinApi, bulk_delete}
use souin.Api.Eviction.{evict_entries}
use souin.Api.Eviction.Kept.{is_current, evict_entries_lem}
use souin.Api.Invalidation.{matches_uri, matches_uri_prefix}
use souin.Api.Invalidation.Selected.{matches_uri_lem}
use souin.Api.Purging.{bulk_delete-Gone}
use souin.Tests.Data.{library, stored_page, storer}

abbrev index_until : ℤ → KeyIndex
index_until t = record {
  stored_at = pos 0;
  fresh_time = t;
  stale_time = t;
  varied_headers = [];
  etag = "";
  real_key = "page";
}

abbrev old_index : StorageMapper
old_index = ("page", index_until (pos 5)) ∷ ("other", index_until (pos 50)) ∷ []

abbrev api_library : ApiLibrary
api_library = record {
  unmarshal = λ _. (false, old_index);
  marshal = λ _. some "index";
  compiles = λ _. true;
  matches = λ p k. p == k;
}

abbrev api : SouinApi Default
api = record { base_path = "/souin"; enabled = true; storers = storer ∷ [] }

-- An index that Get can read.
abbrev indexed : Default
indexed = record stored_page {
  m = ("IDX_page", item (pos 100) "index") ∷ ("page", item (pos 100) "body") ∷ [];
}

evict_entries_lem_example :
    ((evict_entries storer (pos 10) old_index stored_page).0 ≡ keep (is_current (pos 10)) old_index)
    × ((Default.get (pos 20) "page" (evict_entries storer (pos 10) old_index stored_page).1).0 ≡ "")
unfolding souin.Api.Eviction.is_past souin.Clock.sub_time
evict_entries_lem_example =
    evict_entries_lem storer (default_storer-laws library) (pos 10) (pos 20) "page" old_index
      stored_page

matches_uri_lem_example :
    (matches_uri "example.com-/page" "example.com-/page" ≡ false)
    × ((matches_uri "GET-https-example.com-/page" "example.com-/page"
          && matches_uri_prefix "GET-https-example.com-/page" "example.com-/page")
        ≡ matches_uri "GET-https-example.com-/page" "example.com-/page")
matches_uri_lem_example = matches_uri_lem "GET-https-example.com-/page" "example.com-/page"

bulk_delete-Gone_example :
    ((Default.get (pos 20) "page" (bulk_delete api_library (pos 10) "page" true api indexed)).0
      ≡ "")
    × ((Default.get
          (pos 20)
          "IDX_page"
          (bulk_delete api_library (pos 10) "page" true api indexed)).0
        ≡ "")
unfolding cut_prefix
bulk_delete-Gone_example =
    bulk_delete-Gone storer (default_storer-laws library) (pos 20) api_library (pos 10) "page" api
      indexed refl

index-ne-nil : (Default.get (pos 10) ("IDX_" <> cut_prefix "page" "IDX_") indexed).0 ≢ ""
unfolding Default.get Default.get_stored load cut_prefix cut_prefix_from
index-ne-nil = not_empty
  where
    index : String
    index = "index"

    not_empty : index ≢ ""
    not_empty e = ground (arith, eq_iff index "")
