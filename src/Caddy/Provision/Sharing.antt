-- ===== src/Caddy/Provision/Sharing.antt =====
-- What the handlers of a process share.
use mathlib.Core.Option.{some-injective}
use souin.Prelude.{
  ◌≡◌, refl, ap, sym, ◌∙◌, ◌⊎◌, inl, inr, true, false, Option, none, some, [], ◌∷◌, or_else,
}
use souin.Caddy.Provision.{
  App, Base, send, provision_app, with_surrogate_storer, provision, receive, Steps, start,
  provisions, receives, reloads,
}

module _ {A G X : Type 0} where
  -- The app has no surrogate storage and nothing was sent, or it has that of the pool.
  abbrev IsShared : Option G × App A G X → Type 0
  IsShared s =
      ((s.1.surrogate_storage ≡ none) × (s.1.notifier.items ≡ []) × (s.1.notifier.closed ≡ false))
      ⊎ ((g : G) × (s.0 ≡ some g) × (s.1.surrogate_storage ≡ some g))

  -- What a handler gets, and what it leaves.
  abbrev pub Shares : Option G × App A G X → Base G X → Type 0
  Shares s bh =
      (bh' : Base G X) × (app : App A G X) × (provision bh s
        ≡ some (bh', some bh'.surrogate_key_storer, app))
      × (app.surrogate_storage ≡ some bh'.surrogate_key_storer)
      × ((g : G) → s.0 ≡ some g → bh'.surrogate_key_storer ≡ g)

  IsShared-Shares : (s : Option G × App A G X) (bh : Base G X) → IsShared s → Shares s bh
  unfolding provision with_surrogate_storer send
  IsShared-Shares (up, app) bh (inl (none_yet, unsent, opened)) =
      let pooled = or_else up bh.surrogate_key_storer in
      (
        record bh { surrogate_key_storer = pooled },
        record app {
          storers = elim app.storers [ [] ↦ bh.storers | x ∷ xs ↦ x ∷ xs ];
          surrogate_storage = some pooled;
          notifier = record {
            items = record { api = app.api; surrogate_storage = pooled } ∷ [];
            closed = true;
          };
        },
        rw (provision, none_yet, with_surrogate_storer, unsent, send, opened) refl,
        refl,
        λ g e. ap (λ o. or_else o bh.surrogate_key_storer) e,
      )
  IsShared-Shares (up, app) bh (inr (g, pooled, shared)) =
      let app' : Option G → App A G X = λ o. record app {
        storers = elim app.storers [ [] ↦ bh.storers | x ∷ xs ↦ x ∷ xs ];
        surrogate_storage = o;
      } in
      let result : Option G → Option (Base G X × Option G × App A G X) =
        λ o. some (record bh { surrogate_key_storer = g }, some g, app' o) in
      (
        record bh { surrogate_key_storer = g },
        app' (some g),
        rw (provision, shared, pooled) (ap result shared),
        refl,
        λ g' e. some-injective _ _ (sym pooled ∙ e),
      )

  Steps-IsShared : (s t : Option G × App A G X) → Steps s t → IsShared s → IsShared t
  unfolding provision_app receive
  Steps-IsShared s t (start _) h = h
  Steps-IsShared s t (provisions _ t' bh bh' up app steps e) h =
      let (bh'', app'', e', shared, _) = IsShared-Shares t' bh (Steps-IsShared s t' steps h) in
      let same = some-injective _ _ (sym e ∙ e') in
      inr (
        bh''.surrogate_key_storer,
        ap (λ r. r.1) same,
        ap (λ r. r.2.surrogate_storage) same ∙ shared,
      )
  Steps-IsShared s t (receives _ t' steps) h = elim (Steps-IsShared s t' steps h) [
    | inl (none_yet, unsent, opened) ↦ inl (none_yet, refl, opened)
    | inr shared ↦ inr shared
  ]
  Steps-IsShared s t (reloads _ t' api steps) h = inl (refl, refl, refl)

  -- In a process of Caddy every handler is provisioned without a panic and without waiting, in any order
  -- of provisions, receives and reloads, and gets the surrogate storage of the usage pool: the one that
  -- the first handler of the process has made.
  pub provision-Shares :
      (api : A) (t : Option G × App A G X) (bh : Base G X)
      → Steps (none, provision_app api) t
      → Shares t bh
  unfolding provision_app
  provision-Shares api t bh steps =
      IsShared-Shares t bh
        (Steps-IsShared (none, provision_app api) t steps (inl (refl, refl, refl)))
