-- ===== src/Api/Invalidation/Selected.antt =====
-- Which keys the selectors of a POST select.
use Prim.Native.String.{[], ◌∷◌}
use text.Mathlib.TextLemmas.{length-nil, length-cons, length-append}
use souin.Prelude.{◌≤◌, String, ◌≡◌, true, false, ◌&&◌, [], ◌∷◌, arith}
use souin.Text.{◌<>◌, contains, has_prefix, count}
use souin.Api.Invalidation.{matches_uri, matches_uri_prefix}

has_prefix_length : (s p : String) → has_prefix s p ≡ true → count p ≤ count s
unfolding has_prefix
has_prefix_length s [] h = ground (arith, length-nil)
has_prefix_length [] (c ∷ p) h = ground arith
has_prefix_length (d ∷ s) (c ∷ p) h =
    ground (arith, has_prefix_length s p, length-cons d s, length-cons c p)

contains_length : (s p : String) → contains s p ≡ true → count p ≤ count s
unfolding contains
contains_length [] p h = has_prefix_length [] p h
contains_length (d ∷ s) p h =
    ground (arith, has_prefix_length (d ∷ s) p, contains_length s p, length-cons d s)

-- The type `uri` selects no key that is the selector's text: it asks for a longer text in the key.
-- The type `uri-prefix` selects all that `uri` does.
pub matches_uri_lem :
    (all_key bk : String)
    → (matches_uri bk bk ≡ false)
      × ((matches_uri all_key bk && matches_uri_prefix all_key bk) ≡ matches_uri all_key bk)
unfolding matches_uri matches_uri_prefix
matches_uri_lem all_key bk =
    (ground (arith, contains_length bk (bk <> "-"), length-append bk "-"), ground arith)
