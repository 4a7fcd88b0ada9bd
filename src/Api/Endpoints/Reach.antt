-- ===== src/Api/Endpoints/Reach.antt =====
-- Which endpoints a request can reach.
use souin.Prelude.{
  String, ◌≡◌, ◌≢◌, true, false, Option, none, some, List, [], ◌∷◌, All, ◌==◌, Bool-cases, inl, inr,
  if◌then◌else◌,
}
use mathlib.Core.Path.{subst}
use mathlib.Core.Option.{some-injective}
use souin.Text.{◌<>◌, contains}
use souin.Entries.{Entries, store}
use souin.Http.{Request}
use souin.Configuration.{Api}
use souin.Middleware.Serve.{handle_internally}
use souin.Api.Endpoints.{
  Target, Endpoint, initialize_endpoint, initialize, add_endpoints, generate_handler_map,
}

module _ (t : Target) where
  -- No entry leads to the target.
  abbrev Avoids : Entries Target → Type 0
  Avoids m = All (λ e. e.1 ≢ t) m

  store-Avoids :
      (k : String) (u : Target) (m : Entries Target) → u ≢ t → Avoids m → Avoids (store k u m)
  unfolding store
  store-Avoids k u [] h a = (h, tt)
  store-Avoids k u ((j, w) ∷ m) h (a, rest) = elim (Bool-cases (j == k)) [
    | inl e ↦ rw e (h, rest)
    | inr e ↦ rw e (a, store-Avoids k u m h rest)
  ]

  -- The endpoints of the target are off.
  abbrev IsOff : Endpoint → Type 0
  IsOff e = e.enabled ≡ true → e.target ≢ t

  add_endpoints-Avoids :
      (base : String) (endpoints : List Endpoint) (m : Entries Target)
      → All IsOff endpoints
      → Avoids m
      → Avoids (add_endpoints base endpoints m)
  unfolding add_endpoints
  add_endpoints-Avoids base [] m off a = a
  add_endpoints-Avoids base (e ∷ endpoints) m (off, offs) a =
      add_endpoints-Avoids base endpoints _ offs (elim (Bool-cases e.enabled) [
        | inl on ↦ rw on (store-Avoids (base <> e.base_path) e.target m (off on) a)
        | inr not_on ↦ rw not_on a
      ])

  handle_internally-Avoids :
      (m : Entries Target) (r : Request) → Avoids m → handle_internally m r ≢ some t
  unfolding handle_internally
  handle_internally-Avoids [] r a e = absurd (cc)
  handle_internally-Avoids ((k, u) ∷ m) r (a, rest) e =
      elim (Bool-cases (contains r.request_uri k)) [
        | inl here ↦ a (some-injective _ _ (rw here at e))
        | inr later ↦ handle_internally-Avoids m r rest (rw later at e)
      ]

-- An endpoint of the administration that is off answers no request, whatever its path and those of
-- the others are.
pub souin_off-unreached :
    (api : Api) (m : Entries Target) (r : Request)
    → api.souin.enable ≡ false
    → generate_handler_map api ≡ some m
    → handle_internally m r ≢ some Target.administration
unfolding generate_handler_map initialize initialize_endpoint
souin_off-unreached api m r off e = handle_internally-Avoids Target.administration m r (
    mapped
      (add_endpoints (if api.base_path == "" then "/souin-api" else api.base_path) (initialize api)
        [])
      (add_endpoints-Avoids Target.administration _ (initialize api) []
        (λ on. absurd (cc), (λ on same. absurd (cc), (λ on same. absurd (cc), tt))) tt)
      e)
  where
    mapped :
        (l : Entries Target)
        → All (λ x. x.1 ≢ Target.administration) l
        → elim l as (λ _. Option (Entries Target)) [ [] ↦ none | h ∷ hs ↦ some (h ∷ hs) ] ≡ some m
        → All (λ x. x.1 ≢ Target.administration) m
    mapped [] a same = absurd (cc)
    mapped (h ∷ hs) a same =
        subst (All (λ x. x.1 ≢ Target.administration)) (some-injective _ _ same) a
