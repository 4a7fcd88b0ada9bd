-- ===== src/Middleware/Store/Kept.antt =====
-- pkg/middleware/middleware.go: what the end of Store asks of a response before it changes a storage.
use souin.Prelude.{
  String, ◌≡◌, refl, ap, sym, ◌∙◌, inl, inr, Bool, true, false, not, List, is_some, Bool-cases,
  arith,
}
use souin.Prelude.Int.{ℤ}
use souin.Clock.{Dates}
use souin.Http.{Request}
use souin.Http.Headers
use souin.Http.Headers.{Header}
use souin.Storage.{Storer}
use souin.Surrogate.Base.{BaseStorage}
use souin.Rfc.{RequestDirectives, ResponseDirectives, CacheControl}
use souin.Rfc.Vary.{varied_header_all_comma_sep_values}
use souin.Rfc.CacheStatus.{stored_ttl_header, stored_length_header}
use souin.Middleware.{Handler, Printers}
use souin.Middleware.Writer.{CustomWriter, is_detached, header, change_header}
use souin.Middleware.Freshness.{allows_store}
use souin.Middleware.Store.Varied.{IsStarred, not-IsStarred, not-IsStarred-noted}
use souin.Middleware.Store.Keeping.{KeepsUnless, keeps, changes, keeps_weak, keeps_if, keeps_map}
use souin.Middleware.Store.{
  response_header, is_too_large, has_content, store_varied, store_allowed, store_fresh,
}

change_header-buf : (f : Header → Header) (w : CustomWriter) → (change_header f w).buf ≡ w.buf
unfolding change_header
change_header-buf f w = elim (Bool-cases (is_detached w)) [ inl e ↦ rw e refl | inr e ↦ rw e refl ]

pub change_header-code :
    (f : Header → Header) (w : CustomWriter) → (change_header f w).status_code ≡ w.status_code
unfolding change_header
change_header-code f w = elim (Bool-cases (is_detached w)) [ inl e ↦ rw e refl | inr e ↦ rw e refl ]

module _ {S : Type 0} (st : Storer S) (dates : Dates) (control : CacheControl) (p : Printers)
    (s : Handler S) where
  store_varied_keeps :
      (now : ℤ) (rq : Request) (cached_key uri : String) (h : Header) (response : String) (ma : ℤ)
      (varied : List String) (status : String) (base : BaseStorage S)
      → KeepsUnless
          (is_some rq.context.error ≡ false)
          base
          (store_varied st dates control p s now rq cached_key uri h response ma varied status base)
  unfolding store_varied
  store_varied_keeps now rq cached_key uri h response ma varied status base =
      keeps_if _ (is_some rq.context.error) base _ _ (λ _. keeps _) (λ e. changes e _)

  -- What store_allowed asks.
  abbrev pub Kept : Request → CustomWriter → List (String × Bool) → Type 0
  Kept rq w no_cache =
      (is_too_large s.max_body_bytes w.buf ≡ false)
      × (has_content s rq w.status_code w.buf ≡ true)
      × (¬ IsStarred no_cache (header w))
      × (is_some rq.context.error ≡ false)

  store_allowed_keeps :
      (now : ℤ) (rq : Request) (cached_key uri : String) (w : CustomWriter)
      (cc : ResponseDirectives) (ma : ℤ) (status : String) (base : BaseStorage S)
      → KeepsUnless
          (Kept rq w cc.no_cache)
          base
          (store_allowed st dates control p s now rq cached_key uri w cc ma status base)
  unfolding store_allowed
  store_allowed_keeps now rq cached_key uri w cc ma status base =
      let h = response_header dates rq.context.now cc.no_cache w.buf (header w) in
      let noted = Headers.set h stored_length_header (Headers.get h "Content-Length") in
      let varied = varied_header_all_comma_sep_values noted in
      keeps_if (Kept rq w cc.no_cache) (is_too_large s.max_body_bytes w.buf) base _ _ (λ _. keeps _)
        (λ small.
          keeps_if _ (not (has_content s rq w.status_code w.buf)) base _ _ (λ _. keeps _)
            (λ content.
              keeps_if _ varied.1 base _ _ (λ _. keeps _)
                (λ plain.
                  keeps_weak _ _
                    (λ live. (
                      small,
                      ground arith,
                      not-IsStarred dates rq.context.now cc.no_cache w.buf _ (header w) plain,
                      live,
                    ))
                    base _ (store_varied_keeps now rq cached_key uri _ _ ma _ status base))))

  -- What store_fresh asks.
  abbrev pub KeptFresh :
      Request → RequestDirectives → CustomWriter → ResponseDirectives → Bool → Type 0
  KeptFresh rq request_cc w cc from_expires =
      (allows_store rq.context.mode request_cc cc from_expires ≡ true) × Kept rq w cc.no_cache

  Kept-change :
      (rq : Request) (ttl : String) (no_cache : List (String × Bool)) (w : CustomWriter)
      → Kept rq (change_header (λ h. Headers.set h stored_ttl_header ttl) w) no_cache
      → Kept rq w no_cache
  Kept-change rq ttl no_cache w h =
      let f = λ (h : Header). Headers.set h stored_ttl_header ttl in
      let content : has_content s rq (change_header f w).status_code (change_header f w).buf
          ≡ has_content s rq w.status_code w.buf =
        rw (change_header-buf f w, change_header-code f w) refl in
      (
        sym (ap (is_too_large s.max_body_bytes) (change_header-buf f w)) ∙ h.0,
        sym content ∙ h.1,
        not-IsStarred-noted no_cache ttl w h.2,
        h.3,
      )

  pub store_fresh_keeps :
      (now : ℤ) (rq : Request) (request_cc : RequestDirectives) (cached_key uri : String)
      (w : CustomWriter) (cc : ResponseDirectives) (duration : ℤ) (from_expires : Bool)
      (base : BaseStorage S)
      → KeepsUnless (KeptFresh rq request_cc w cc from_expires) base (
          store_fresh st dates control p s now rq request_cc cached_key uri w cc
            (duration, from_expires)
            base)
  unfolding store_fresh
  store_fresh_keeps now rq request_cc cached_key uri w cc duration from_expires base =
      let noted =
        λ (h : Header). Headers.set h stored_ttl_header (dates.duration_string duration) in
      keeps_if _ (allows_store rq.context.mode request_cc cc from_expires) base _ _
        (λ allowed. keeps_map _ _ base _ (
          keeps_weak _ _
            (λ kept. (allowed, Kept-change rq (dates.duration_string duration) cc.no_cache w kept))
            base _ (store_allowed_keeps now rq cached_key uri (change_header noted w) cc _ _ base)))
        (λ _. keeps _)
