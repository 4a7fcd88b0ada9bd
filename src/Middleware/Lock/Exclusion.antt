-- ===== src/Middleware/Lock/Exclusion.antt =====
-- What the lock of the eviction excludes.
use souin.Prelude.{
  String, ◌≡◌, refl, ap, ◌∙◌, true, false, Option, none, some, [], ◌∷◌, ◌==◌, inl, inr, eq_iff,
}
use souin.Prelude.Int.{ℤ, pos, ◌+ℤ◌, ltb_ℤ, ◌≤ℤ◌}
use souin.Text.{split, join}
use souin.Storage.{Storer}
use souin.Storage.Contract.{StorerLaws}
use souin.Middleware.Lock.{
  eviction_lock_key, eviction_lock_ttl, lock_holder, lock_value, claim, verify,
  try_acquire_eviction_lock,
}

module _ {S : Type 0} (st : Storer S) (parse : String → Option ℤ) (format : ℤ → String) where
  -- A storage whose lock value names, at that time, a holder: another instance is refused without a
  -- write, and the holder keeps the lock.
  claim_held :
      (now : ℤ) (me holder : String) (s : S)
      → lock_holder st parse format now (split (st.get now eviction_lock_key s).0 "|") ≡ some holder
      → claim st parse format now me s ≡ (inl (holder == me), (st.get now eviction_lock_key s).1)
  unfolding claim
  claim_held now me holder s e = rw (claim, e) refl

  -- The lock value that is written names its holder until it expires.
  lock_value-holder :
      (now later until : ℤ) (me : String)
      → split (lock_value st parse format now me) "|"
        ≡ me ∷ format (now +ℤ pos eviction_lock_ttl) ∷ []
      → parse (format (now +ℤ pos eviction_lock_ttl)) ≡ some until
      → ltb_ℤ later until ≡ true
      → lock_holder st parse format later (split (lock_value st parse format now me) "|") ≡ some me
  unfolding lock_holder join
  lock_value-holder now later until me pieces dated early =
      rw (pieces, lock_holder, dated, early) refl

  -- An instance whose second read finds its own value holds the lock: until the date in that value,
  -- as long as the storage keeps it, every other instance that asks next is refused, and itself not.
  pub acquired-excludes :
      (laws : StorerLaws st) (now later asked until : ℤ) (me other : String) (s : S)
      → split (lock_value st parse format now me) "|"
        ≡ me ∷ format (now +ℤ pos eviction_lock_ttl) ∷ []
      → parse (format (now +ℤ pos eviction_lock_ttl)) ≡ some until
      → ltb_ℤ asked until ≡ true
      → later ≤ℤ asked
      → (st.get asked eviction_lock_key s).0 ≡ (st.get later eviction_lock_key s).0
      → (verify st parse format later (inr (lock_value st parse format now me)) s).0 ≡ true
      → (claim st parse format asked other
          (verify st parse format later (inr (lock_value st parse format now me)) s).1).0
        ≡ inl (me == other)
  unfolding verify
  acquired-excludes laws now later asked until me other s pieces dated early order kept won =
      let s' = (st.get later eviction_lock_key s).1 in
      let current : (st.get asked eviction_lock_key s').0 ≡ lock_value st parse format now me =
        laws.get_get later asked eviction_lock_key eviction_lock_key s order
        ∙ (kept
            ∙ (eq_iff (st.get later eviction_lock_key s).0 (lock_value st parse format now me)).0
                won) in
      ap (λ r. r.0)
        (claim_held asked other me s' (
          ap (λ v. lock_holder st parse format asked (split v "|")) current
          ∙ lock_value-holder now asked until me pieces dated early))

  -- An instance that finds no valid lock, and in whose sleep no other instance writes, gets the lock,
  -- if the storage takes the value and still has it after the sleep.
  pub free-acquired :
      (laws : StorerLaws st) (now later : ℤ) (me : String) (s : S)
      → lock_holder st parse format now (split (st.get now eviction_lock_key s).0 "|") ≡ none
      → (st.set now eviction_lock_key
          (lock_value st parse format now me)
          (pos eviction_lock_ttl)
          (st.get now eviction_lock_key s).1).0
        ≡ false
      → laws.alive now (pos eviction_lock_ttl) later ≡ true
      → (try_acquire_eviction_lock st parse format now later (λ s'. s') me s).0 ≡ true
  unfolding try_acquire_eviction_lock claim verify
  free-acquired laws now later me s free taken alive =
      let value = lock_value st parse format now me in
      let read =
        laws.get_set now later eviction_lock_key eviction_lock_key value (pos eviction_lock_ttl)
          (st.get now eviction_lock_key s).1 in
      rw (free, try_acquire_eviction_lock, claim, taken) ((eq_iff _ value).1 (rw alive at read))
