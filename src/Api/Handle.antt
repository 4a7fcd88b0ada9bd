-- ===== src/Api/Handle.antt =====
-- HandleRequest of pkg/api/souin.go. The state is that of the surrogate's storage; `none` is a
-- panic.
use souin.Prelude.{
  ℕ, String, Bool, true, false, Option, none, some, List, [], ◌∷◌, ◌++◌, ◌==◌, ◌>>=◌, or_else, eqb,
  if◌then◌else◌,
}
use souin.Prelude.Int.{ℤ}
use souin.Text.{◌<>◌, contains, count, has_suffix}
use souin.Entries.{Entries}
use souin.Http
use souin.Http.{Request, ResponseWriter}
use souin.Http.Headers
use souin.Http.Headers.{Header}
use souin.Storage.{Storer}
use souin.Surrogate.Base.{BaseStorage, destruct}
use souin.Surrogate.Base as Base
use souin.Surrogate.Cdn.{Cdn, provider_purge}
use souin.Api.{ApiLibrary, SouinApi, bulk_delete, get_all, list_keys}
use souin.Api.Eviction.{purge_mapping}
use souin.Api.Invalidation.{
  InvalidationType, Invalidation, ParseUrl, uri, uri_prefix, origin, group, other,
  keys_to_invalidate,
}

-- encoding/json, and the argument that the regular expression of the base path finds in a URI.
pub record Json : Type 0 where
  pub print_keys : List String → String
  pub print_entries : Entries String → String
  pub read_invalidation : String → Option Invalidation
  pub argument : String → Option String

module _ {S : Type 0} (st : Storer S) (lib : ApiLibrary) (json : Json) (parse : ParseUrl)
    (cdn : Cdn) (api : SouinApi S) where
  -- A step on the storages, on the surrogate's state.
  abbrev on_storage : (S → S) → BaseStorage S → BaseStorage S
  on_storage f base = record base { storage = f base.storage }

  unfoldable pub bulk_delete_keys : ℤ → Bool → List String → BaseStorage S → BaseStorage S
  bulk_delete_keys now purge [] base = base
  bulk_delete_keys now purge (k ∷ keys) base =
      bulk_delete_keys now purge keys (on_storage (bulk_delete lib now k purge api) base)

  unfoldable pub delete_many_in : String → List (Storer S) → S → S
  delete_many_in pattern_ [] s = s
  delete_many_in pattern_ (current ∷ storers) s =
      delete_many_in pattern_ storers (current.delete_many pattern_ s)

  abbrev with_base : BaseStorage S → Option (List String × S) → Option (List String × BaseStorage S)
  with_base base none = none
  with_base base (some (keys, s)) = some (keys, record base { storage = s })

  -- The body of a GET, and whether it is "[]" for a search.
  unfoldable pub handle_get : ℤ → Request → BaseStorage S → Option (String × Bool × BaseStorage S)
  handle_get now r base =
      let (entries, listed) = Base.list st now base in
      let found : Option (String × Bool × BaseStorage S) = elim (json.argument r.request_uri) [
        | none ↦ do
          (keys, base') ← with_base base (get_all now api.storers base.storage)
          some (json.print_keys keys, false, base')
        | some search ↦ do
          (keys, base') ← with_base base (list_keys lib now search api base.storage)
          some (json.print_keys keys, eqb (count (json.print_keys keys)) 2, base')
      ] in
      if contains r.request_uri (api.base_path <> "/surrogate_keys")
      then some (json.print_entries entries, false, listed)
      else found

  abbrev is_listing : InvalidationType → Bool
  is_listing uri = true
  is_listing uri_prefix = true
  is_listing origin = true
  is_listing group = false
  is_listing other = false

  -- The keys that a POST invalidates.
  unfoldable pub posted_keys :
      ℤ → Invalidation → BaseStorage S → Option (List String × BaseStorage S)
  posted_keys now inv base =
      let (cache_keys, surrogate_keys, purged, _) =
        provider_purge st now cdn (Headers.put "Surrogate-Key" inv.groups Headers.empty) base in
      let grouped : Option (List String × BaseStorage S) = elim inv.type_ [
        | group ↦ some (cache_keys ++ surrogate_keys, purged)
        | _ ↦ some ([], base)
      ] in
      let listed : Option (List String × BaseStorage S) =
        (with_base base (get_all now api.storers base.storage)
          >>= (λ (keys, base'). some (keys_to_invalidate parse inv keys, base'))) in
      if is_listing inv.type_ then listed else grouped

  -- A POST: the code, and the state.
  unfoldable pub handle_post : ℤ → Request → BaseStorage S → Option (ℕ × BaseStorage S)
  handle_post now r base = elim (json.read_invalidation (or_else r.body "")) [
    | none ↦ some (400, base)
    | some inv ↦ do
      (keys, base') ← posted_keys now inv base
      some (200, bulk_delete_keys now inv.purge keys base')
  ]

  abbrev surrogate_names : List String → List String
  surrogate_names [] = []
  surrogate_names (k ∷ keys) = ("SURROGATE_" <> k) ∷ surrogate_names keys

  -- A PURGE whose URI has an argument.
  unfoldable pub purge_argument : ℤ → Request → String → BaseStorage S → BaseStorage S
  purge_argument now r argument base =
      if has_suffix r.request_uri (api.base_path <> "/flush")
      then (destruct st (on_storage (delete_many_in ".+" api.storers) base)).1
      else if has_suffix r.request_uri (api.base_path <> "/mapping")
      then on_storage (purge_mapping lib now api.storers) base
      else on_storage (delete_many_in argument api.storers) base

  -- A PURGE without an argument: the tags of its header.
  unfoldable pub purge_tags_of : ℤ → Request → BaseStorage S → BaseStorage S
  purge_tags_of now r base =
      let (cache_keys, surrogate_keys, purged, _) = provider_purge st now cdn r.header base in
      bulk_delete_keys now true (surrogate_names surrogate_keys)
        (bulk_delete_keys now true cache_keys purged)

  unfoldable pub handle_purge : ℤ → Request → BaseStorage S → BaseStorage S
  handle_purge now r base = elim (json.argument r.request_uri) [
    | none ↦ purge_tags_of now r base
    | some argument ↦ purge_argument now r argument base
  ]

  abbrev answer :
      ResponseWriter
      → Option (String × Bool × BaseStorage S)
      → Option (ResponseWriter × BaseStorage S)
  answer w none = none
  answer w (some (body, not_found, base)) =
      let w' = if not_found then Http.write_header 404 w else w in
      some (
        Http.write body
            (record w' { header = Headers.set w'.header "Content-Type" "application/json" }),
        base,
      )

  abbrev posted :
      ResponseWriter → Option (ℕ × BaseStorage S) → Option (ResponseWriter × BaseStorage S)
  posted w none = none
  posted w (some (code, base)) =
      let w' = Http.write_header code w in
      some (if eqb code 400 then w' else Http.write "" w', base)

  -- HandleRequest
  unfoldable pub handle_request :
      ℤ → Request → ResponseWriter → BaseStorage S → Option (ResponseWriter × BaseStorage S)
  handle_request now r w base =
      if r.method == "GET"
      then answer w (handle_get now r base)
      else if r.method == "POST"
      then posted w (handle_post now r base)
      else if r.method == "PURGE"
      then some (Http.write "" (Http.write_header 204 w), handle_purge now r base)
      else some (Http.write "" w, base)
