-- ===== src/Middleware/Upstream/Shared.antt =====
-- Upstream of pkg/middleware/middleware.go: which responses a request shares with concurrent ones.
use souin.Text.{◌<>◌, contains}
use souin.Text.Members.{listed_iff}
use souin.Surrogate.{surrogate_control}
use souin.Rfc.{header_all_comma_sep_values}
use souin.Prelude.{
  All, Has, ◌||◌, if◌then◌else◌, String, ◌≡◌, refl, ◌⊎◌, ap, eq_iff, inl, inr, Bool, true, false,
  not, none, some, List, ◌∷◌, ◌==◌, any, Bool-cases, arith,
}
use souin.Prelude.Int.{ℤ}
use souin.Clock.{Dates}
use souin.Http.{Request}
use souin.Http.Headers
use souin.Http.Headers.{Header}
use souin.Storage.{Storer}
use souin.Surrogate.Base.{BaseStorage}
use souin.Rfc.{RequestDirectives, CacheControl}
use souin.Middleware.{Handler, Printers}
use souin.Middleware.Writer.{CustomWriter, header, is_detached, change_header, write, write_header}
use souin.Middleware.Upstream.{
  SingleflightValue, Flight, alone, joined, Next, Flown, replay, varies, again, fly_store, flown,
  outcome, settle, Result, upstream,
}
use souin.Middleware.Upstream.Values.{
  varied_star, varied_plain, same_values, other_value, fly_store-value,
}
use souin.Middleware.Upstream.Laws.{after_settle, upstream_cons}

module _ {S : Type 0} (st : Storer S) (dates : Dates) (control : CacheControl) (p : Printers)
    (s : Handler S) (next : Next) where
  -- What of a value tells that it is for one client: the controls of the response that was written, and
  -- its cookie.
  abbrev pub IsPrivate : BaseStorage S → CustomWriter → SingleflightValue → Type 0
  IsPrivate base w v =
      (contains (surrogate_control base.parent (header w)).1 "private" ≡ true)
      ⊎ ((Headers.get v.headers "Set-Cookie" == "") ≡ false)

  abbrev pub IsOpen : BaseStorage S → CustomWriter → SingleflightValue → Type 0
  IsOpen base w v =
      (contains (surrogate_control base.parent (header w)).1 "private" ≡ false)
      × (Headers.get v.headers "Set-Cookie" ≡ "")

  -- Some varied header of a value has other values in the two requests, and "*" is not among them.
  abbrev pub Differ : Request → Request → SingleflightValue → Type 0
  Differ rq rq' v =
      (¬ Has "*" (header_all_comma_sep_values v.headers "Vary"))
      × (name : String) × Has name (header_all_comma_sep_values v.headers "Vary")
      × ((Headers.get rq.header name == Headers.get rq'.header name) ≡ false)

  -- A value varies on nothing, on "*", or on headers with the same values in the two requests.
  abbrev pub Alike : Request → Request → SingleflightValue → Type 0
  Alike rq rq' v =
      (Headers.get v.headers "Vary" ≡ "")
      ⊎ Has "*" (header_all_comma_sep_values v.headers "Vary")
      ⊎ All (λ name. Headers.get rq.header name ≡ Headers.get rq'.header name)
          (header_all_comma_sep_values v.headers "Vary")

  -- The result has the body and the code of a value, and its headers over those of the writer, unless
  -- they have been sent.
  abbrev pub HasValue :
      SingleflightValue → CustomWriter → BaseStorage S → Result st dates control p s next → Type 0
  HasValue v w base r =
      (r.failure ≡ none)
      × (r.writer.buf ≡ "" <> v.body)
      × (r.writer.status_code ≡ (if w.headers_sent then w.status_code else v.code))
      × (r.writer.rw.header
          ≡ (if is_detached w then w.rw.header else Headers.copy w.rw.header v.headers))
      × (r.base ≡ base)

  varies_cases :
      (rq rq' : Request) (v : SingleflightValue)
      → v.request_headers ≡ rq'.header
      → ((varies rq v ≡ true) × Differ rq rq' v) ⊎ ((varies rq v ≡ false) × Alike rq rq' v)
  unfolding varies
  varies_cases rq rq' v made =
      let names = header_all_comma_sep_values v.headers "Vary" in
      let starred = listed_iff "*" names in
      elim (Bool-cases (Headers.get v.headers "Vary" == "")) [
        | inl bare ↦
            inr (rw (varies, bare) refl, inl ((eq_iff (Headers.get v.headers "Vary") "").0 bare))
        | inr full ↦ elim (Bool-cases (any (λ n. n == "*") names)) [
          | inl star ↦
              inr (rw (varies, full, varied_star v.headers star) refl, inr (inl (starred.0 star)))
          | inr plain ↦
              elim (Bool-cases
                (any (λ vh. not (Headers.get rq.header vh == Headers.get rq'.header vh)) names)) [
                  | inl other ↦ inl (
                    rw (varies, full, varied_plain v.headers plain, made) other,
                    (let (name, listed, differs) = other_value rq.header rq'.header names other in
                        ((λ h. absurd (ground (arith, starred.1 h))), name, listed, differs)),
                  )
                  | inr alike ↦ inr (
                    rw (varies, full, varied_plain v.headers plain, made) alike,
                    inr (inr (same_values rq.header rq'.header names alike)),
                  )
                ]
        ]
      ]

  IsPrivate-cases :
      (w : CustomWriter) (base : BaseStorage S) (v : SingleflightValue)
      → v.disable_coalescing ≡ (
          contains (surrogate_control base.parent (header w)).1 "private"
          || not (Headers.get v.headers "Set-Cookie" == ""))
      → v.disable_coalescing ≡ true
      → IsPrivate base w v
  IsPrivate-cases w base v told private_ = ground arith

  IsOpen-parts :
      (w : CustomWriter) (base : BaseStorage S) (v : SingleflightValue)
      → v.disable_coalescing ≡ (
          contains (surrogate_control base.parent (header w)).1 "private"
          || not (Headers.get v.headers "Set-Cookie" == ""))
      → v.disable_coalescing ≡ false
      → IsOpen base w v
  IsOpen-parts w base v told open_ =
      (ground arith, ground (arith, eq_iff (Headers.get v.headers "Set-Cookie") ""))

  replay-HasValue :
      (v : SingleflightValue) (w : CustomWriter) (base : BaseStorage S)
      → HasValue v w base (record { failure = none; writer = replay v w; base = base })
  unfolding replay write write_header change_header is_detached
  replay-HasValue v w base = (refl, ground arith, ground arith, ground arith, refl)

  -- Upstream, where coalescing is not switched off, for a request that gets the value of another
  -- request's call, whose response was written with `w'`: a private value, or one with a cookie, is left
  -- for a call without coalescing; else, one with a varied header of which the two requests have other
  -- values, and with no "*" in Vary, is left for another call; else the request gets the value's body,
  -- code and headers (so also where the value varies on "*").
  pub upstream_joined :
      (now now' : ℤ) (rq rq' : Request) (request_cc request_cc' : RequestDirectives)
      (cached_key uri cached_key' uri' : String) (w w' : CustomWriter) (base base' : BaseStorage S)
      (f : Flown S) (v : SingleflightValue) (flights : List Flight)
      → s.coalescing_disabled ≡ false
      → fly_store st dates control p s next now' rq' request_cc' cached_key' uri' w' base' ≡ some f
      → f.value ≡ some v
      → (IsPrivate base' w' v
          × (upstream st dates control p s next now rq request_cc cached_key uri
                (joined v ∷ flights)
                false
                w
                base
              ≡ upstream st dates control p s next now rq request_cc cached_key uri flights true w
                  base))
        ⊎ (IsOpen base' w' v
            × Differ rq rq' v
            × (upstream st dates control p s next now rq request_cc cached_key uri
                  (joined v ∷ flights)
                  false
                  w
                  base
                ≡ upstream st dates control p s next now rq request_cc cached_key uri flights false
                    w base))
        ⊎ (IsOpen base' w' v
            × Alike rq rq' v
            × (r : Result st dates control p s next) × (upstream st dates control p s next now rq
                  request_cc cached_key uri
                  (joined v ∷ flights)
                  false
                  w
                  base
                ≡ some r)
            × HasValue v w base r)
  unfolding flown settle again after_settle varies replay
  upstream_joined now now' rq rq' request_cc request_cc' cached_key uri cached_key' uri' w w' base
        base' f v flights coalesced flew value =
      let (made, told) =
        fly_store-value st dates control p s next now' rq' request_cc' cached_key' uri' w' base' f v
          flew value in
      let got : Flown S = record { value = some v; error = none; writer = w; base = base } in
      let ran : outcome st dates control p s next false (joined v) ≡ joined v =
        ap (λ b. if b || false then alone else joined v) coalesced in
      let next_round =
        λ (x : Result st dates control p s next ⊎ (Bool × CustomWriter × BaseStorage S))
            (settled : settle st dates control p s next rq true got ≡ x).
          upstream_cons st dates control p s next now rq request_cc cached_key uri (joined v)
            (joined v) flights false w base got x ran refl settled in
      elim (Bool-cases v.disable_coalescing) [
        | inl private_ ↦ inl (
          IsPrivate-cases w' base' v told private_,
          next_round (inr (true, w, base)) (rw (private_, settle, again) refl),
        )
        | inr open_ ↦
            let is_open : IsOpen base' w' v = IsOpen-parts w' base' v told open_ in
            elim (varies_cases rq rq' v made) [
              | inl (other, differ) ↦ inr (
                  inl (
                    is_open,
                    differ,
                    next_round (inr (false, w, base)) (rw (open_, other, settle, again) refl),
                  ))
              | inr (same, alike) ↦ inr (
                  inr (
                    is_open,
                    alike,
                    record { failure = none; writer = replay v w; base = base },
                    next_round (inl (record { failure = none; writer = replay v w; base = base }))
                        (rw (open_, same, settle, again) refl),
                    replay-HasValue v w base,
                  ))
            ]
      ]
