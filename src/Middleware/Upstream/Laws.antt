-- ===== src/Middleware/Upstream/Laws.antt =====
-- Upstream of pkg/middleware/middleware.go: that it ends.
use souin.Prelude.{
  ◌||◌, if◌then◌else◌, String, ◌≡◌, ◌≢◌, refl, ◌⊎◌, ap, ◌∙◌, inl, inr, Bool, true, false, ◌&&◌, not,
  Option, none, some, List, [], ◌∷◌, ◌==◌, any, Option-cases, Bool-cases, eq_refl, arith,
}
use souin.Prelude.Int.{ℤ}
use souin.Clock.{Dates}
use souin.Http.{Request}
use souin.Http.Headers
use souin.Http.Headers.{Header}
use souin.Storage.{Storer}
use souin.Surrogate.Base.{BaseStorage}
use souin.Rfc.{RequestDirectives, CacheControl}
use souin.Rfc.Vary.{varied_header_all_comma_sep_values}
use souin.Middleware.{Handler, Printers, caches_code, is_upstream_50x}
use souin.Middleware.Writer.{CustomWriter}
use souin.Middleware.Store.{store, with_default_control}
use souin.Middleware.Upstream.{
  SingleflightValue, Flight, alone, is_shared, Next, Flown, replay, varies, again, fly_store, fly,
  flown, outcome, settle, Result, upstream,
}

same_headers :
    (h : Header) (varied : List String)
    → any (λ vh. not (Headers.get h vh == Headers.get h vh)) varied ≡ false
same_headers h [] = refl
same_headers h (vh ∷ varied) = rw (eq_refl (Headers.get h vh)) (same_headers h varied)

-- A request differs in no varied header from itself.
varies_self :
    (rq : Request) (v : SingleflightValue) → v.request_headers ≡ rq.header → varies rq v ≡ false
unfolding varies
varies_self rq v e =
    rw e (ground (arith, same_headers rq.header (varied_header_all_comma_sep_values v.headers).0))

or_true : (b : Bool) → (b || true) ≡ true
or_true b = ground arith

module _ {S : Type 0} (st : Storer S) (dates : Dates) (control : CacheControl) (p : Printers)
    (s : Handler S) (next : Next) where
  -- A value that the call made itself has the headers of the request.
  abbrev OwnValue : Request → Option SingleflightValue → Type 0
  OwnValue rq none = Unit
  OwnValue rq (some v) = v.request_headers ≡ rq.header

  abbrev Own : Request → Option (Flown S) → Type 0
  Own rq none = Unit
  Own rq (some f) = OwnValue rq f.value

  fly_store-Own :
      (now : ℤ) (rq : Request) (request_cc : RequestDirectives) (cached_key uri : String)
      (w : CustomWriter) (base : BaseStorage S)
      → Own rq (fly_store st dates control p s next now rq request_cc cached_key uri w base)
  unfolding fly_store
  fly_store-Own now rq request_cc cached_key uri w base =
      elim (Option-cases (
        store st dates control p s now rq request_cc cached_key uri
          (with_default_control s base w).1 base)) [
            | inl e ↦ rw (e, fly_store) tt
            | inr (r, e) ↦ rw (e, fly_store) refl
          ]

  fly-Own :
      (now : ℤ) (rq : Request) (request_cc : RequestDirectives) (cached_key uri : String)
      (w : CustomWriter) (base : BaseStorage S)
      → Own rq (fly st dates control p s next now rq request_cc cached_key uri w base)
  unfolding fly
  fly-Own now rq request_cc cached_key uri w base =
      let w' = (next rq w).1 in
      elim (Option-cases (next rq w).0) [
        | inr (r, e) ↦ rw (e, fly) tt
        | inl e ↦
            elim (Bool-cases
              (not (caches_code s w'.status_code) && is_upstream_50x w'.status_code)) [
                | inl bad ↦ rw (e, bad, fly) tt
                | inr good ↦ rw (e, good, fly) (fly_store-Own now rq request_cc cached_key uri _ _)
              ]
      ]

  -- A call that ran alone and has its own value does not call again.
  settle_own :
      (rq : Request) (f : Flown S)
      → OwnValue rq f.value
      → (r : Result st dates control p s next) × (settle st dates control p s next rq false f
          ≡ inl r)
  unfolding settle again
  settle_own rq f own = elim (Option-cases f.error) [
    | inr (e, failed) ↦
        (record { failure = some e; writer = f.writer; base = f.base }, rw (failed, settle) refl)
    | inl ok ↦ elim (Option-cases f.value) [
      | inl none_ ↦
          (record { failure = none; writer = f.writer; base = f.base }, rw (ok, none_, settle) refl)
      | inr (v, value) ↦
          let own' : v.request_headers ≡ rq.header = rw value at own in
          (
            record { failure = none; writer = replay v f.writer; base = f.base },
            rw (ok, value, varies_self rq v own', settle, again) refl,
          )
    ]
  ]

  -- What Upstream does with an outcome: the result, or the next call.
  unfoldable pub after_settle :
      ℤ
      → Request
      → RequestDirectives
      → String
      → String
      → List Flight
      → Result st dates control p s next ⊎ (Bool × CustomWriter × BaseStorage S)
      → Option (Result st dates control p s next)
  after_settle now rq request_cc cached_key uri flights (inl r) = some r
  after_settle now rq request_cc cached_key uri flights (inr (disable, w, base)) =
      upstream st dates control p s next now rq request_cc cached_key uri flights disable w base

  abbrev round :
      ℤ
      → Request
      → RequestDirectives
      → String
      → String
      → List Flight
      → CustomWriter
      → BaseStorage S
      → Flight
      → Option (Result st dates control p s next)
  round now rq request_cc cached_key uri flights w base o =
      elim (flown st dates control p s next o now rq request_cc cached_key uri w base)
        as (λ _. Option (Result st dates control p s next)) [
          | none ↦ none
          | some f ↦
              elim (settle st dates control p s next rq (is_shared o) f)
                as (λ _. Option (Result st dates control p s next)) [
                  | inl r ↦ some r
                  | inr (disable, w', base') ↦
                      upstream st dates control p s next now rq request_cc cached_key uri flights
                        disable w' base'
                ]
        ]

  -- One round of Upstream, for the outcome that its call has.
  pub upstream_cons :
      (now : ℤ) (rq : Request) (request_cc : RequestDirectives) (cached_key uri : String)
      (flight o : Flight) (flights : List Flight) (disable : Bool) (w : CustomWriter)
      (base : BaseStorage S) (f : Flown S)
      (x : Result st dates control p s next ⊎ (Bool × CustomWriter × BaseStorage S))
      → outcome st dates control p s next disable flight ≡ o
      → flown st dates control p s next o now rq request_cc cached_key uri w base ≡ some f
      → settle st dates control p s next rq (is_shared o) f ≡ x
      → upstream st dates control p s next now rq request_cc cached_key uri
          (flight ∷ flights)
          disable
          w
          base
        ≡ after_settle now rq request_cc cached_key uri flights x
  unfolding upstream after_settle
  upstream_cons now rq request_cc cached_key uri flight o flights disable w base f (inl r) ran got
        settled =
      ap (λ u. round now rq request_cc cached_key uri flights w base u) ran
      ∙ rw (got, settled, round) refl
  upstream_cons now rq request_cc cached_key uri flight o flights disable w base f
        (inr (d, w1, base1)) ran got settled =
      ap (λ u. round now rq request_cc cached_key uri flights w base u) ran
      ∙ rw (got, settled, round) refl

  upstream-settled :
      (now : ℤ) (rq : Request) (request_cc : RequestDirectives) (cached_key uri : String)
      (w : CustomWriter) (base : BaseStorage S) (f : Flown S) (r : Result st dates control p s next)
      → fly st dates control p s next now rq request_cc cached_key uri w base ≡ some f
      → settle st dates control p s next rq false f ≡ inl r
      → (flights : List Flight)
      → upstream st dates control p s next now rq request_cc cached_key uri flights true w base
        ≡ some r
  unfolding upstream flown after_settle
  upstream-settled now rq request_cc cached_key uri w base f r e settled [] =
      rw (e, settled, upstream) refl
  upstream-settled now rq request_cc cached_key uri w base f r e settled (flight ∷ flights) =
      upstream_cons now rq request_cc cached_key uri flight alone flights true w base f (inl r)
        (ap (λ (b : Bool). if b then alone else flight) (or_true s.coalescing_disabled)) e settled

  -- With coalescing switched off, Upstream runs alone and returns, whatever outcomes are left.
  upstream-alone :
      (now : ℤ) (rq : Request) (request_cc : RequestDirectives) (cached_key uri : String)
      → ((w : CustomWriter) (base : BaseStorage S)
          → fly st dates control p s next now rq request_cc cached_key uri w base ≢ none)
      → (w : CustomWriter) (base : BaseStorage S)
      → (r : Result st dates control p s next) × ((flights : List Flight)
          → upstream st dates control p s next now rq request_cc cached_key uri flights true w base
            ≡ some r)
  unfolding upstream flown
  upstream-alone now rq request_cc cached_key uri flies w base =
      elim (Option-cases (fly st dates control p s next now rq request_cc cached_key uri w base)) [
        | inl e ↦ absurd (flies w base e)
        | inr (f, e) ↦
            let owns : Own rq
                (fly st dates control p s next now rq request_cc cached_key uri w base) =
              fly-Own now rq request_cc cached_key uri w base in
            let own : OwnValue rq f.value = rw e at owns in
            let (r, settled) = settle_own rq f own in
            (r, upstream-settled now rq request_cc cached_key uri w base f r e settled)
      ]

  -- Upstream ends on a private response. If the storages do not panic, a call that shared a value with
  -- coalescing switched off for it, without an error, is followed by one call that runs alone: whatever
  -- outcomes the concurrent calls would have had, Upstream returns, with the same result.
  pub upstream_private_ends :
      (now : ℤ) (rq : Request) (request_cc : RequestDirectives) (cached_key uri : String)
      → ((w : CustomWriter) (base : BaseStorage S)
          → fly st dates control p s next now rq request_cc cached_key uri w base ≢ none)
      → (flight : Flight) (flights flights' : List Flight) (w : CustomWriter) (base : BaseStorage S)
        (f : Flown S) (v : SingleflightValue)
      → is_shared (outcome st dates control p s next false flight) ≡ true
      → flown st dates control p s next
          (outcome st dates control p s next false flight)
          now
          rq
          request_cc
          cached_key
          uri
          w
          base
        ≡ some f
      → f.error ≡ none
      → f.value ≡ some v
      → v.disable_coalescing ≡ true
      → (r : Result st dates control p s next) × (upstream st dates control p s next now rq
            request_cc cached_key uri
            (flight ∷ flights)
            false
            w
            base
          ≡ some r)
        × (upstream st dates control p s next now rq request_cc cached_key uri
              (flight ∷ flights')
              false
              w
              base
            ≡ some r)
  unfolding settle again after_settle
  upstream_private_ends now rq request_cc cached_key uri flies flight flights flights' w base f v
        shared got ok value private_ =
      let o = outcome st dates control p s next false flight in
      let again_ : settle st dates control p s next rq (is_shared o) f
          ≡ inr (true, f.writer, f.base) =
        ap (λ b. settle st dates control p s next rq b f) shared
        ∙ rw (ok, value, private_, settle, again) refl in
      let (r, alone_) = upstream-alone now rq request_cc cached_key uri flies f.writer f.base in
      (
        r,
        upstream_cons now rq request_cc cached_key uri flight o flights false w base f
              (inr (true, f.writer, f.base)) refl got again_
            ∙ alone_ flights,
        upstream_cons now rq request_cc cached_key uri flight o flights' false w base f
              (inr (true, f.writer, f.base)) refl got again_
            ∙ alone_ flights',
      )
