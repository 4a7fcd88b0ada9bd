-- ===== src/Tests/Insertions.antt =====
-- A response that is stored in memory, and found again.
use mathlib.Core.Option.{some-injective}
use souin.Prelude.{String, ◌≡◌, ◌≢◌, refl, ◌∙◌, sym, ap, none, some, [], ◌∷◌, arith}
use souin.Prelude.Int.{pos, ◌+ℤ◌}
use souin.Clock.{add_duration, wrap64}
use souin.Entries.{load, store}
use souin.Http.{Response}
use souin.Http.Headers
use souin.Storage.Default.{
  Default, Library, item, bytes, default_storer, set_multi_level, update_mapping,
}
use souin.Storage.Default.Index.{ElectionLaws, default_storer-IndexLaws}
use souin.Rfc.Vary.{get_varied_cache_key, varied_header}
use souin.Middleware.Insertion.{store_in, insert_all, insert, stored_keys, varied_values}
use souin.Middleware.Lookup.{Found, lookup_from}
use souin.Middleware.Store.Found.{store_in-lookup_from}
use souin.Tests.Data.{library, request, validator, nothing_stored}
use souin.Tests.Responses.{printers}

abbrev page : String → Response
page text = record { status_code = 200; header = []; body = text }

-- An index that is the key of its only variant.
abbrev electing : Library
electing = record library {
  mapping_election = λ get now index req v p.
      let (text, p') = get index p in
      (record { fresh = some (page text); stale = none; validator = v }, p');
}

abbrev electing-ElectionLaws : ElectionLaws electing
electing-ElectionLaws = record {
  read = λ value req. some (page value);
  elects =
      λ lookup p now later fresh stale key value compressed etag real index varied req v zipped
          updated agrees bare early got.
        ap (λ t. some (page t))
          (ap (λ k. (lookup k p).0) (sym (some-injective _ _ updated))
            ∙ got
            ∙ sym (some-injective _ _ zipped));
}

abbrev varied_page : String
varied_page = "page{-VARY-}Accept-Encoding:gzip"

abbrev page_stored : Default
page_stored = record {
  m = (varied_page, item (pos 60) "body") ∷ ("IDX_page", bytes varied_page) ∷ [];
  stale = pos 0;
}

other : varied_page ≢ "IDX_page"
other e = absurd (cc)

store_in-lookup_from_example :
    (found : Found Default) × (s : Default) × (lookup_from {S = Default}
        (pos 10)
        "page"
        request
        validator
        []
        (default_storer electing ∷ [])
        page_stored
      ≡ some (found, s))
    × (found.fresh ≡ some (page "body"))
unfolding store_in insert_all insert stored_keys set_multi_level update_mapping load store
    add_duration wrap64 ◌+ℤ◌ Headers.get Headers.lookup Headers.put Headers.set
    default_storer-IndexLaws varied_values get_varied_cache_key varied_header
    souin.Text.Case.canonical_key souin.Text.split
store_in-lookup_from_example =
    store_in-lookup_from (default_storer electing)
      (default_storer-IndexLaws electing electing-ElectionLaws) printers (pos 0) (pos 10) request
      request "page" ("Accept-Encoding" ∷ []) "body" [] (pos 60) validator (page "body")
      nothing_stored page_stored refl (refl, other, omega arith) refl (refl, tt) refl refl refl
