-- ===== src/Middleware/Lock.antt =====
-- tryAcquireEvictionLock of pkg/middleware/middleware.go: the instances that share a storage take
-- turns at the eviction.
pub mod Exclusion
use souin.Prelude.{
  ℕ, ◌*◌, String, ◌≡◌, refl, Bool, true, false, ◌||◌, ◌&&◌, not, Option, none, some, List, [], ◌∷◌,
  ◌==◌, ◌⊎◌, inl, inr, if◌then◌else◌,
}
use souin.Prelude.Int.{ℤ, pos, ◌+ℤ◌, ltb_ℤ}
use souin.Text.{◌<>◌, split, join}
use souin.Clock.{second}
use souin.Storage.{Storer}

abbrev pub eviction_lock_key : String
eviction_lock_key = "eviction-lock"

abbrev pub eviction_lock_ttl : ℕ
eviction_lock_ttl = 2 * 60 * second

module _ {S : Type 0} (st : Storer S) (parse : String → Option ℤ) (format : ℤ → String) where
  -- parse and format are those of time.RFC3339.
  -- The holder of a lock value at a time, if the lock is still valid.
  unfoldable pub lock_holder : ℤ → List String → Option String
  lock_holder now (holder ∷ (expiry ∷ rest)) = elim (parse (join (expiry ∷ rest) "|")) [
    | none ↦ none
    | some locked_until ↦ if ltb_ℤ now locked_until then some holder else none
  ]
  lock_holder now _ = none

  unfoldable pub lock_value : ℤ → String → String
  lock_value now me = me <> ("|" <> format (now +ℤ pos eviction_lock_ttl))

  -- The first half of tryAcquireEvictionLock for the instance `me`: `inl` is what it returns then,
  -- `inr` the value that it has written.
  unfoldable pub claim : ℤ → String → S → (Bool ⊎ String) × S
  claim now me s =
      let (existing, s') = st.get now eviction_lock_key s in
      let (failed, s'') =
        st.set now eviction_lock_key (lock_value now me) (pos eviction_lock_ttl) s' in
      elim (lock_holder now (split existing "|")) [
        | some holder ↦ (inl (holder == me), s')
        | none ↦ if failed then (inl false, s'') else (inr (lock_value now me), s'')
      ]

  -- The second half, after the sleep.
  unfoldable pub verify : ℤ → (Bool ⊎ String) → S → Bool × S
  verify later (inl result) s = (result, s)
  verify later (inr value) s =
      let (current, s') = st.get later eviction_lock_key s in (current == value, s')

  -- tryAcquireEvictionLock; `others` is what the other instances do during the sleep.
  unfoldable pub try_acquire_eviction_lock : ℤ → ℤ → (S → S) → String → S → Bool × S
  try_acquire_eviction_lock now later others me s =
      let (claimed, s') = claim now me s in verify later claimed (others s')
