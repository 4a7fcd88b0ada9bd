-- ===== src/Tests/Configuration.antt =====
-- Configurations of the agnostic parser and of Kratos.
use mathlib.Core.List.{Permᴰ, Nodup, not-mem-nil, eq-or-mem_of_mem-cons, Pairwise}
use mathlib.Core.Logic.Or
use mathlib.Core.HLevel.{⊥_prop}
use mathlib.Core.Path.{subst}
use mathlib.Core.Option.{some-injective}
use souin.Prelude.{
  ℕ, zero, suc, ◌<◌, String, ◌≡◌, ◌≢◌, refl, ◌∙◌, ◌↔◌, Bool, true, Option, none, some, [], ◌∷◌, any,
  All, arith,
}
use souin.Prelude.Int.{ℤ, pos}
use souin.Entries.{Entries, load, store}
use souin.Configuration.{DefaultCache, Url, no_default_cache}
use souin.Configuration.Dynamic.{
  Fields, Value, Items, range_entries, entries, items, fields_of, as_object, as_text, as_bool,
  as_int,
}
use souin.Configuration.Setting.{set_default_cache, put, put_option, setting_of}
use souin.Configuration.Agnostic.Parser.{parse_default_cache, url_entry, urls_entry, parse_urls}
use souin.Configuration.Agnostic.Laws.{parse_default_cache-perm, parse_urls-headers}
use souin.Text.{◌<>◌}
use souin.Text.Escape.{byte}
use souin.Configuration.Traefik
use souin.Configuration.Traefik.{bar, list_prefix, parse_string_slice}
use souin.Configuration.Kratos.{KratosValue, Loaded, parse_recursively}
use souin.Configuration.Kratos.Parser
use souin.Configuration.Kratos.Laws.{
  status_codes-NoVerbs, parse_recursively-ne-none, parse_urls-none_iff, lacks_ttl,
}

abbrev minute : String → Option ℤ
minute t = some (pos 60_000_000_000)

abbrev mode_entry : String × Value
mode_entry = ("mode", Value.text "strict")

abbrev ttl_entry : String × Value
ttl_entry = ("ttl", Value.text "60s")

two_keys : (a b : String) → a ≢ b → Nodup (a ∷ b ∷ [])
two_keys a b h =
    Pairwise.cons
      (λ c m e. Or.elim ⊥_prop (eq-or-mem_of_mem-cons m) (λ same. h (e ∙ same)) not-mem-nil)
      (Pairwise.cons (λ c m e. not-mem-nil m) Pairwise.nil)

parse_default_cache-perm_example :
    parse_default_cache minute (mode_entry ∷ ttl_entry ∷ [])
    ≡ parse_default_cache minute (ttl_entry ∷ mode_entry ∷ [])
parse_default_cache-perm_example =
    parse_default_cache-perm minute (Permᴰ.swap refl refl)
      (two_keys "mode" "ttl" (λ e. absurd (cc)))

abbrev block_of_url : Value
block_of_url = Value.object (fields_of (ttl_entry ∷ ("headers", Value.texts ("Accept" ∷ [])) ∷ []))

abbrev page_url : Url
page_url = record { ttl = pos 60_000_000_000; headers = []; default_cache_control = "" }

parse_urls-headers_example : page_url.headers ≡ []
unfolding parse_urls urls_entry url_entry range_entries entries as_object as_text load store
parse_urls-headers_example =
    parse_urls-headers minute (("/page", block_of_url) ∷ []) (("/page", page_url) ∷ []) refl "/page"
      page_url refl

-- Values of Kratos that are those of a map of Go.
abbrev kratos : KratosValue Value
kratos = record {
  bool = as_bool;
  int = as_int;
  float = λ _. none;
  string = as_text;
  map = as_object;
  slice = λ v. elim v [ Value.array xs ↦ some (items xs) | _ ↦ none ];
  load = λ _. Loaded.other;
}

abbrev verbs_entry : String × Value
verbs_entry = ("allowed_http_verbs", Value.array (Items.item (Value.text "GET") Items.end))

abbrev codes : Value
codes = Value.array (Items.item (Value.int (pos 202)) Items.end)

abbrev with_codes : DefaultCache
with_codes = record no_default_cache { allowed_additional_status_codes = pos 202 ∷ [] }

status_codes-NoVerbs_example : with_codes.allowed_http_verbs ≡ []
unfolding Parser.parse_default_cache Parser.default_cache_entry Parser.default_cache_setting
    Parser.set_status_codes set_default_cache range_entries put setting_of put_option items as_int
    as_text
status_codes-NoVerbs_example =
    status_codes-NoVerbs kratos minute 3 (verbs_entry ∷ []) [] codes with_codes tt refl

parse_urls-none_iff_example :
    (Parser.parse_urls kratos minute 3 (("/page", block_of_url) ∷ ("/other", Value.nil) ∷ [])
      ≡ none)
    ↔ (any {A = String × Value}
          (λ e. lacks_ttl kratos minute 3 e.1)
          (("/page", block_of_url) ∷ ("/other", Value.nil) ∷ [])
        ≡ true)
parse_urls-none_iff_example =
    parse_urls-none_iff kratos minute 3 (("/page", block_of_url) ∷ ("/other", Value.nil) ∷ [])

-- A value that is so many maps deep, around a flag.
abbrev inside : ℕ → Option (Entries ℕ)
inside zero = none
inside (suc n) = some (("inner", n) ∷ [])

abbrev flag : ℕ → Option Bool
flag zero = some true
flag (suc n) = none

abbrev nested : KratosValue ℕ
nested = record {
  bool = flag;
  int = λ _. none;
  float = λ _. none;
  string = λ _. none;
  map = inside;
  slice = λ _. none;
  load = λ _. Loaded.other;
}

inside-deeper : (v : ℕ) (m : Entries ℕ) → inside v ≡ some m → All (λ e. e.1 < v) m
inside-deeper zero m e = absurd (cc)
inside-deeper (suc n) m e =
    subst (All (λ e'. e'.1 < suc n)) (some-injective _ _ e) (omega arith, tt)

parse_recursively-ne-none_example : parse_recursively nested minute 4 (("options", 2) ∷ []) ≢ none
parse_recursively-ne-none_example =
    parse_recursively-ne-none nested minute (λ n. n) inside-deeper 3 (("options", 2) ∷ [])
      (ground arith, tt)

-- The two forms of a list in one text.
slices :
    (parse_string_slice (Value.text (list_prefix <> ("GET" <> (bar <> "POST"))))
      ≡ some ("GET" ∷ "POST" ∷ []))
    × (parse_string_slice (Value.text "GET,POST") ≡ some ("GET" ∷ "POST" ∷ []))
unfolding parse_string_slice byte
slices = (refl, refl)

-- A URL without "ttl" is a panic here as well.
no_ttl :
    Traefik.Parser.parse_urls (λ _. true) minute (("/page", Value.object Fields.done) ∷ []) ≡ none
unfolding Traefik.Parser.parse_urls
no_ttl = refl
