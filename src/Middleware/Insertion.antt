-- ===== src/Middleware/Insertion.antt =====
-- How (*SouinBaseHandler).Store of pkg/middleware/middleware.go inserts a response in the storers:
-- the keys of the response, and one insertion for each storer.
use souin.Prelude.{String, Option, none, some, List, [], ◌∷◌, ◌++◌, ◌==◌, ◌>>=◌, if◌then◌else◌}
use souin.Prelude.Int.{ℤ}
use souin.Text.{◌<>◌, contains, split}
use souin.Text.Case.{to_lower}
use souin.Http.{Request}
use souin.Http.Headers
use souin.Http.Headers.{Header, first}
use souin.Storage.{Storer}
use souin.Rfc.Vary.{get_varied_cache_key}
use souin.Middleware.{Printers}

-- The values of the varied headers that the index keeps.
unfoldable pub varied_values : Request → List String → Header → Header
varied_values rq [] vhs = vhs
varied_values rq (hname ∷ names) vhs =
    let name = first (split hname ":") in
    varied_values rq names (Headers.set vhs name (Headers.get rq.header name))

-- The keys under which a response is stored, and the values of the varied headers.
pub record StoredKeys : Type 0 where
  pub base_key : String
  pub varied_key : String
  pub varied_headers : Header

unfoldable pub stored_keys : Printers → Request → String → List String → StoredKeys
stored_keys p rq cached_key varied =
    let (suffix, varied') = get_varied_cache_key rq varied in
    let varied_key = cached_key <> suffix in
    record {
      base_key = if rq.context.hashed then p.hash_key cached_key else cached_key;
      varied_key = if rq.context.hashed then p.hash_key varied_key else varied_key;
      varied_headers = varied_values rq varied' Headers.empty;
    }

-- One insertion, with the text for a failure.
unfoldable pub insert :
    {S : Type 0} → Storer S → ℤ → StoredKeys → String → String → ℤ → S → Option (List String × S)
insert storer now keys response etag ma s =
    elim (storer.set_multi_level now keys.base_key keys.varied_key response keys.varied_headers etag
      ma keys.varied_key s) [
        | none ↦ none
        | some (failed, s') ↦ some (
          if failed then ("; detail=" <> (storer.name s' <> "-INSERTION-ERROR")) ∷ [] else [],
          s',
        )
      ]

unfoldable pub insert_all :
    {S : Type 0}
    → List (Storer S)
    → ℤ
    → StoredKeys
    → String
    → String
    → ℤ
    → S
    → Option (List String × S)
insert_all [] now keys response etag ma s = some ([], s)
insert_all (storer ∷ storers) now keys response etag ma s = do
  (fails, s') ← insert storer now keys response etag ma s
  (later, s'') ← insert_all storers now keys response etag ma s'
  some (fails ++ later, s'')

-- The last storer whose name contains that of X-Souin-Storer.
unfoldable pub overrided_storer : {S : Type 0} → S → String → List (Storer S) → Option (Storer S)
overrided_storer s target [] = none
overrided_storer s target (storer ∷ storers) = elim (overrided_storer s target storers) [
  | some later ↦ some later
  | none ↦ if contains (to_lower (storer.name s)) (to_lower target) then some storer else none
]

-- The insertions for a response; a header X-Souin-Storer that names no storer is a panic.
unfoldable pub store_in :
    {S : Type 0}
    → List (Storer S)
    → ℤ
    → StoredKeys
    → String
    → Header
    → ℤ
    → S
    → Option (List String × S)
store_in storers now keys response h ma s =
    let target = Headers.get h "X-Souin-Storer" in
    let etag = Headers.get h "Etag" in
    let overrided : Option (List String × _) = elim (overrided_storer s target storers) [
      | none ↦ none
      | some storer ↦ insert storer now keys response etag ma s
    ] in
    if target == "" then insert_all storers now keys response etag ma s else overrided
