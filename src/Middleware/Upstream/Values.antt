-- ===== src/Middleware/Upstream/Values.antt =====
-- Upstream of pkg/middleware/middleware.go: what a value tells of its call, and its varied headers.
use souin.Text.{contains}
use souin.Surrogate.{surrogate_control}
use souin.Rfc.{header_all_comma_sep_values}
use souin.Prelude.{
  All, Has, ◌||◌, String, ◌≡◌, refl, eq_iff, inl, inr, true, false, not, Option, none, some, List,
  [], ◌∷◌, ◌==◌, any, Option-cases, Bool-cases, arith,
}
use souin.Prelude.Int.{ℤ}
use souin.Clock.{Dates}
use souin.Http.{Request}
use souin.Http.Headers
use souin.Http.Headers.{Header}
use souin.Storage.{Storer}
use souin.Surrogate.Base.{BaseStorage}
use souin.Rfc.{RequestDirectives, CacheControl}
use souin.Rfc.Vary.{varied_header_all_comma_sep_values}
use souin.Middleware.{Handler, Printers}
use souin.Middleware.Writer.{CustomWriter, header}
use souin.Middleware.Store.{store, with_default_control}
use souin.Middleware.Upstream.{SingleflightValue, Next, Flown, fly_store}

pub varied_star :
    (h : Header)
    → any (λ n. n == "*") (header_all_comma_sep_values h "Vary") ≡ true
    → varied_header_all_comma_sep_values h ≡ ("*" ∷ [], true)
unfolding varied_header_all_comma_sep_values
varied_star h e = rw e refl

pub varied_plain :
    (h : Header)
    → any (λ n. n == "*") (header_all_comma_sep_values h "Vary") ≡ false
    → varied_header_all_comma_sep_values h ≡ (header_all_comma_sep_values h "Vary", false)
unfolding varied_header_all_comma_sep_values
varied_plain h e = rw e refl

pub same_values :
    (h h' : Header) (names : List String)
    → any (λ vh. not (Headers.get h vh == Headers.get h' vh)) names ≡ false
    → All (λ name. Headers.get h name ≡ Headers.get h' name) names
same_values h h' [] e = tt
same_values h h' (name ∷ names) e = (
  ground (arith, eq_iff (Headers.get h name) (Headers.get h' name)),
  same_values h h' names (ground arith),
)

pub other_value :
    (h h' : Header) (names : List String)
    → any (λ vh. not (Headers.get h vh == Headers.get h' vh)) names ≡ true
    → (name : String) × Has name names × ((Headers.get h name == Headers.get h' name) ≡ false)
other_value h h' [] e = absurd (cc)
other_value h h' (name ∷ names) e = elim (Bool-cases (Headers.get h name == Headers.get h' name)) [
  | inr differs ↦ (name, inl refl, differs)
  | inl alike ↦
      let (other, listed, differs) = other_value h h' names (ground arith) in
      (other, inr listed, differs)
]

module _ {S : Type 0} (st : Storer S) (dates : Dates) (control : CacheControl) (p : Printers)
    (s : Handler S) (next : Next) where
  -- What a value of Upstream tells of the call that made it.
  abbrev pub TellsValue : Request → CustomWriter → BaseStorage S → Option SingleflightValue → Type 0
  TellsValue rq w base none = Unit
  TellsValue rq w base (some v) =
      (v.request_headers ≡ rq.header)
      × (v.disable_coalescing ≡ (
          contains (surrogate_control base.parent (header w)).1 "private"
          || not (Headers.get v.headers "Set-Cookie" == "")))

  abbrev Tells : Request → CustomWriter → BaseStorage S → Option (Flown S) → Type 0
  Tells rq w base none = Unit
  Tells rq w base (some f) = TellsValue rq w base f.value

  fly_store-Tells :
      (now : ℤ) (rq : Request) (request_cc : RequestDirectives) (cached_key uri : String)
      (w : CustomWriter) (base : BaseStorage S)
      → Tells rq w base
          (fly_store st dates control p s next now rq request_cc cached_key uri w base)
  unfolding fly_store
  fly_store-Tells now rq request_cc cached_key uri w base =
      elim (Option-cases (
        store st dates control p s now rq request_cc cached_key uri
          (with_default_control s base w).1 base)) [
            | inl e ↦ rw (e, fly_store) tt
            | inr (r, e) ↦ rw (e, fly_store) (refl, refl)
          ]

  pub fly_store-value :
      (now : ℤ) (rq : Request) (request_cc : RequestDirectives) (cached_key uri : String)
      (w : CustomWriter) (base : BaseStorage S) (f : Flown S) (v : SingleflightValue)
      → fly_store st dates control p s next now rq request_cc cached_key uri w base ≡ some f
      → f.value ≡ some v
      → TellsValue rq w base (some v)
  fly_store-value now rq request_cc cached_key uri w base f v flew value =
      let told : Tells rq w base
          (fly_store st dates control p s next now rq request_cc cached_key uri w base) =
        fly_store-Tells now rq request_cc cached_key uri w base in
      let told' : TellsValue rq w base f.value = rw flew at told in rw value at told'
