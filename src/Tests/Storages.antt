-- ===== src/Tests/Storages.antt =====
-- The storage in memory: what its reads, writes and lists give.
use souin.Prelude.{List, [], ◌∷◌, arith, ◌≡◌, ◌≢◌, refl, none}
use souin.Prelude.Int.{ℤ, pos, ◌+ℤ◌}
use souin.Entries.{load}
use souin.Text.{has_prefix}
use souin.Http.Headers
use souin.Storage.Default
use souin.Storage.Default.{
  Default, Library, delete_many, get_multi_level, set_multi_level, list_keys, selected,
}
use souin.Storage.Default.Laws.{get-set}
use souin.Storage.Default.Invariant.{
  IsWellFormed, Sets, get_multi_level-ne-none, set_multi_level-Sets,
}
use souin.Storage.Default.Refinement.{
  Command, get_value, set_value, delete_key, table_step, storage_step, outputs, outputs-refine,
}
use souin.Tests.Data.{nothing_stored, library, stored_page, request, validator}

stored_page-IsWellFormed : IsWellFormed stored_page
unfolding has_prefix
stored_page-IsWellFormed = (refl, (refl, tt))

get-set_example :
    (Default.get (pos 9) "page" (Default.set (pos 0) "page" "new" (pos 10) stored_page).1).0 ≡ "new"
unfolding ◌+ℤ◌
get-set_example = get-set (pos 0) (pos 9) "page" "page" "new" (pos 10) stored_page

get_multi_level-ne-none_example :
    get_multi_level library (pos 0) "page" request validator stored_page ≢ none
get_multi_level-ne-none_example =
    get_multi_level-ne-none library (pos 0) "page" request validator stored_page
      stored_page-IsWellFormed

set_multi_level-Sets_example : Sets library (
    set_multi_level library
      (pos 0)
      "page"
      "other"
      "body"
      Headers.empty
      ""
      (pos 10)
      "other"
      stored_page)
unfolding has_prefix
set_multi_level-Sets_example =
    set_multi_level-Sets library (pos 0) "page" "other" "body" Headers.empty "" (pos 10) "other"
      stored_page refl stored_page-IsWellFormed

abbrev schedule : List (ℤ × Command)
schedule =
    (pos 0, set_value "page" "body" (pos 50))
    ∷ (pos 10, get_value "page")
    ∷ (pos 20, delete_key "page")
    ∷ (pos 30, get_value "page")
    ∷ []

outputs-refine_example :
    outputs library (storage_step library) schedule nothing_stored
    ≡ outputs library (table_step library) schedule (λ k. none)
unfolding Default.get load
outputs-refine_example =
    outputs-refine library (pos 0) schedule nothing_stored (λ k. none) (λ later j le. refl)
      (omega arith, (omega arith, (omega arith, (omega arith, tt))))
