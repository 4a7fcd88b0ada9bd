-- ===== src/Caddy/Provision.antt =====
-- plugins/caddy/httpcache.go, app.go and admin.go: how the handlers that Caddy provisions share one
-- surrogate storage, and tell the admin API of it. A is the type of the API's configuration, G that of
-- a surrogate storage.
pub mod Sharing
use souin.Prelude.{
  ◌≡◌, Bool, true, false, Option, none, some, List, [], ◌∷◌, or_else, if◌then◌else◌,
}

-- A channel with room for one item; Go panics on a send once it is closed, and a send waits while it
-- is full.
pub record Channel (I : Type 0) : Type 0 where
  pub items : List I
  pub closed : Bool

unfoldable pub send : {I : Type 0} → I → Channel I → Option (Channel I)
send i c = elim c.items [
  | [] ↦ if c.closed then none else some (record c { items = i ∷ [] })
  | _ ∷ _ ↦ none
]

-- notifierItem; a receive from a closed, empty channel gives the zero item.
pub record NotifierItem (A G : Type 0) : Type 0 where
  pub api : A
  pub surrogate_storage : G

-- The parts of SouinApp that the handlers share.
pub record App (A G X : Type 0) : Type 0 where
  pub api : A
  pub storers : List X
  pub surrogate_storage : Option G
  pub notifier : Channel (NotifierItem A G)

-- A handler, once NewHTTPCacheHandler has made it.
pub record Base (G X : Type 0) : Type 0 where
  pub storers : List X
  pub surrogate_key_storer : G

module _ {A G X : Type 0} where
  -- SouinApp.Provision on a new app.
  unfoldable pub provision_app : A → App A G X
  provision_app api = record {
    api = api;
    storers = [];
    surrogate_storage = none;
    notifier = record { items = []; closed = false };
  }

  -- withSurrogateStorer: `none` is a panic, or that the send waits for ever.
  unfoldable pub with_surrogate_storer : G → App A G X → Option (App A G X)
  unfolding send
  with_surrogate_storer surrogate s =
      elim (send (record { api = s.api; surrogate_storage = surrogate }) s.notifier) [
        | none ↦ none
        | some c ↦
            some (record s {
              surrogate_storage = some surrogate;
              notifier = record c { closed = true };
            })
      ]

  -- Provision of a handler, from the call of NewHTTPCacheHandler on. The state is the entry of the
  -- usage pool `up`, which outlives a reload, and the app.
  unfoldable pub provision :
      Base G X → Option G × App A G X → Option (Base G X × Option G × App A G X)
  unfolding with_surrogate_storer
  provision bh (up, app) =
      let pooled = or_else up bh.surrogate_key_storer in
      let bh' = record bh { surrogate_key_storer = pooled } in
      let app' = record app { storers = elim app.storers [ [] ↦ bh.storers | x ∷ xs ↦ x ∷ xs ] } in
      elim app.surrogate_storage [
        | none ↦ elim (with_surrogate_storer pooled app') [
          | none ↦ none
          | some app'' ↦ some (bh', some pooled, app'')
        ]
        | some shared ↦ some (record bh' { surrogate_key_storer = shared }, some pooled, app')
      ]

  -- The goroutine of the admin API takes the item.
  unfoldable pub receive : App A G X → App A G X
  receive app = record app { notifier = record app.notifier { items = [] } }

  -- What happens in a process: a handler is provisioned, the admin API receives, or a reload makes a
  -- new app. A reload begins once a handler has been provisioned.
  pub data Steps : (s t : Option G × App A G X) → Type 0 where
    start : (s : Option G × App A G X) → Steps s s
    provisions :
        (s t : Option G × App A G X) (bh bh' : Base G X) (up : Option G) (app : App A G X)
        → Steps s t
        → provision bh t ≡ some (bh', up, app)
        → Steps s (up, app)
    receives : (s t : Option G × App A G X) → Steps s t → Steps s (t.0, receive t.1)
    reloads : (s t : Option G × App A G X) (api : A) → Steps s t → Steps s (t.0, provision_app api)
