-- ===== src/Middleware/Serve/Laws.antt =====
-- What ServeHTTP serves from the storages, and what it deletes from them.
use souin.Prelude.{
  ℕ, String, ◌≡◌, refl, ap, ◌∙◌, inl, inr, Bool, true, false, ◌||◌, ◌&&◌, not, ◌⊎◌, Option, none,
  some, List, [], ◌∷◌, ◌++◌, ◌==◌, is_some, or_else, ltb, Option-cases, Bool-cases, arith,
  if◌then◌else◌,
}
use souin.Prelude.Int.{ℤ}
use souin.Text.{◌<>◌}
use souin.Clock.{Dates}
use souin.Http.{Request, Response, ResponseWriter}
use souin.Storage.{Storer, Revalidator, mapping_key_prefix}
use souin.Storage.Contract.{IndexLaws}
use souin.Surrogate.Base.{BaseStorage, invalidate}
use souin.Rfc.{ResponseDirectives, CacheControl, response_cache_control}
use souin.Rfc.Age.{validate_max_age_cached_response}
use souin.Rfc.Age.Bounds.{IsYoung, validate_max_age_cached_response_iff}
use souin.Context.{Context, set_context}
use souin.Middleware.{Handler, Printers}
use souin.Middleware.Writer.{CustomWriter, ServeContent}
use souin.Middleware.Upstream.{ServeError, Next}
use souin.Middleware.Lookup.{Found, lookup_from, with_cache_status}
use souin.Middleware.Fresh.{
  Outcome, served, passed, Serving, revalidate_and_send, forces_revalidation, serve_young,
  serve_hit,
}
use souin.Middleware.Serve.{
  PlainNext, ContextFunctions, lookup_key, bypass_status, delete_in_all, serve_unsupported,
}

module _ {S : Type 0} (st : Storer S) (dates : Dates) (control : CacheControl) (p : Printers)
    (serve_content : ServeContent) (s : Handler S) (next : Next) where
  young_only :
      (young : Bool) (hit : Outcome S) (w w' : CustomWriter) (base base' : BaseStorage S)
      (e : Option ServeError)
      → Path
          (Option (Outcome S))
          (some (if young then hit else passed w base))
          (some (served e w' base'))
      → young ≡ true
  young_only true hit w w' base base' e same = refl
  young_only false hit w w' base base' e same = absurd (cc)

  serve_young-IsYoung :
      (r : Serving) (response : Response) (cc_ : ResponseDirectives) (w w' : CustomWriter)
      (base base' : BaseStorage S) (e : Option ServeError)
      → r.req.context.mode.strict ≡ true
      → response_cache_control control response.header ≡ some cc_
      → serve_young st dates control p serve_content s next r response w base
        ≡ some (served e w' base')
      → IsYoung r.request_cc cc_ response
  unfolding serve_young
  serve_young-IsYoung r response cc_ w w' base base' e strict parsed same =
      (validate_max_age_cached_response_iff control r.request_cc response cc_ parsed).0
        (elim (Option-cases (validate_max_age_cached_response control r.request_cc response)) [
          | inl panics ↦
              let same' : Path (Option (Outcome S)) none (some (served e w' base')) =
                rw (strict, panics) at same in
              absurd (cc)
          | inr (young, known) ↦
              let same' : some (if young then _ else passed w base) ≡ some (served e w' base') =
                rw (strict, known) at same in
              known ∙ ap (λ b. some b) (young_only young _ w w' base base' e same')
        ])

  -- In the strict mode, ServeHTTP serves a fresh stored response (as it is once its Age and Cache-Status
  -- are set) whose Cache-Control parses in one of three cases only: the request's entity tag matches
  -- it, and then its age is not looked at; or it is revalidated; or its age is within the limit, which
  -- is s-maxage if there is one, else max-age, else the request's max-age.
  pub serve_hit-IsYoung :
      (r : Serving) (header_name : String) (found : Found S) (response : Response)
      (cc_ : ResponseDirectives) (w w' : CustomWriter) (base base' : BaseStorage S)
      (e : Option ServeError)
      → r.req.context.mode.strict ≡ true
      → response_cache_control control
          (with_cache_status dates r.now r.req found.storer_name response).header
        ≡ some cc_
      → serve_hit st dates control p serve_content s next r header_name found response w base
        ≡ some (served e w' base')
      → (((found.validator.response_etag == "") ≡ false) × (found.validator.matched ≡ true))
        ⊎ (revalidate_and_send st dates control p serve_content s next r found.validator w base
            ≡ some (served e w' base'))
        ⊎ IsYoung r.request_cc cc_ (with_cache_status dates r.now r.req found.storer_name response)
  unfolding serve_hit
  serve_hit-IsYoung r header_name found response cc_ w w' base base' e strict parsed same =
      let v = found.validator in
      elim (Bool-cases (not (v.response_etag == "") && v.matched)) [
        | inl tagged ↦ inl (ground arith, ground arith)
        | inr untagged ↦
            elim (Bool-cases (not r.req.context.mode.bypass_request && v.need_revalidation)) [
              | inl needed ↦ inr (inl (rw (untagged, needed) at same))
              | inr unneeded ↦ inr (
                  by_force (rw (untagged, unneeded) at same) (
                    Option-cases (
                      forces_revalidation st dates control p serve_content s next r.req header_name
                        response)))
            ]
      ]
    where
      stamped : Response
      stamped = with_cache_status dates r.now r.req found.storer_name response

      forced : Option Bool
      forced =
          forces_revalidation st dates control p serve_content s next r.req header_name response

      revalidated : Option (Outcome S)
      revalidated =
          revalidate_and_send st dates control p serve_content s next r found.validator w base

      by_force :
          (elim forced as (λ _. Option (Outcome S)) [
            | none ↦ none
            | some true ↦ revalidated
            | some false ↦ serve_young st dates control p serve_content s next r stamped w base
          ])
            ≡ some (served e w' base')
          → (forced ≡ none) ⊎ ((b : Bool) × (forced ≡ some b))
          → (revalidated ≡ some (served e w' base')) ⊎ IsYoung r.request_cc cc_ stamped
      by_force kept (inl panics) =
          let kept' : Path (Option (Outcome S)) none (some (served e w' base')) =
            rw panics at kept in
          absurd (cc)
      by_force kept (inr (true, asked)) = inl (rw asked at kept)
      by_force kept (inr (false, unasked)) =
          inr
            (serve_young-IsYoung r stamped cc_ w w' base base' e strict parsed (rw unasked at kept))

assoc : {A : Type 0} (xs : List A) (y : A) (ys : List A) → (xs ++ y ∷ []) ++ ys ≡ xs ++ y ∷ ys
assoc [] y ys = refl
assoc (x ∷ xs) y ys = ap (λ zs. x ∷ zs) (assoc xs y ys)

-- The storers that are filled with a response are asked before the one that has it, in their order.
pub lookup_from-earlier :
    {S : Type 0} (now : ℤ) (key : String) (req : Request) (v : Revalidator)
    (earlier storers : List (Storer S)) (s s' : S) (found : Found S)
    → lookup_from now key req v earlier storers s ≡ some (found, s')
    → (rest : List (Storer S)) × (found.earlier ++ rest ≡ earlier ++ storers)
unfolding lookup_from
lookup_from-earlier now key req v earlier [] s s' found same = ([], ground arith)
lookup_from-earlier now key req v earlier (storer ∷ storers) s s' found same =
    elim (Option-cases (storer.get_multi_level now key req v s)) [
      | inl e ↦ absurd (ground arith)
      | inr (c, e) ↦ elim (Bool-cases (is_some c.0.fresh || is_some c.0.stale)) [
        | inl some_ ↦ (storer ∷ storers, ground arith)
        | inr none_ ↦
            let (rest, same_list) =
              lookup_from-earlier now key req c.0.validator (earlier ++ storer ∷ []) storers c.1 s'
                found (ground arith) in
            (rest, same_list ∙ assoc earlier storer storers)
      ]
    ]

module _ {S : Type 0} (st : Storer S) (dates : Dates) (control : CacheControl) (p : Printers)
    (serve_content : ServeContent) (s : Handler S) (next : Next) (plain : PlainNext) (c : Context)
    (cf : ContextFunctions) where
  -- The GET request that is related to a request, in its context.
  abbrev related : Request → Request
  related req =
      set_context cf.hash cf.replace_all cf.matches cf.encode_query c
        (record req { method = "GET" })

  -- A lookup in the only storage, once the index of its key is deleted.
  gone_after :
      (laws : IndexLaws st) (later : ℤ) (k : String) (rq : Request) (v : Revalidator)
      (a a' : Option ServeError) (r r' : ResponseWriter) (b b' : BaseStorage S) (t : S)
      → Path
          (Option (Option ServeError × ResponseWriter × BaseStorage S))
          (some (a, r, record b { storage = st.delete (mapping_key_prefix <> k) t }))
          (some (a', r', b'))
      → (found : Found S) × (s' : S) × (lookup_from later k rq v [] (st ∷ []) b'.storage
          ≡ some (found, s'))
        × (found.fresh ≡ none)
        × (found.stale ≡ none)
  unfolding lookup_from
  gone_after laws later k rq v a a' r r' b b' t same =
      let stored : b'.storage ≡ st.delete (mapping_key_prefix <> k) t = ground arith in
      (
        record { fresh = none; stale = none; validator = v; storer_name = ""; earlier = st ∷ [] },
        st.delete (mapping_key_prefix <> k) t,
        rw (stored, lookup_from, laws.get_delete_multi_level later k rq v t) refl,
        refl,
        refl,
      )

  -- A request with another method than GET that the cache does not take, to which the next handler
  -- answers without an error and with a code below 400: afterwards the lookup of ServeHTTP finds no
  -- response, fresh or stale, in the handler's only storage for the related GET request, whatever
  -- validators come with it, if the rule of that request does not hash its key.
  pub serve_unsupported_unfound :
      (laws : IndexLaws st) (now later : ℤ) (req : Request) (v : Revalidator)
      (out out' : ResponseWriter) (base base' : BaseStorage S) (code : ℕ) (answer : ResponseWriter)
      (error : Option ServeError)
      → s.storers ≡ st ∷ []
      → (req.method == "GET") ≡ false
      → (related req).context.hashed ≡ false
      → plain req (bypass_status req.context.cache_name "UNSUPPORTED-METHOD" out)
        ≡ (none, code, answer)
      → ltb code 400 ≡ true
      → serve_unsupported st dates control p serve_content s next plain c cf now req out base
        ≡ some (error, out', base')
      → (found : Found S) × (s' : S) × (lookup_from later
            (lookup_key p (related req) (or_else (related req).context.key ""))
            (related req)
            v
            []
            s.storers
            base'.storage
          ≡ some (found, s'))
        × (found.fresh ≡ none)
        × (found.stale ≡ none)
  unfolding serve_unsupported delete_in_all
  serve_unsupported_unfound laws now later req v out out' base base' code answer error only other
        unhashed answered low same =
      let base1 : BaseStorage S =
        if s.surrogate_disabled then base else invalidate st now req.method answer.header base in
      let same' : some (none, answer, record base1 { storage = st.delete _ base1.storage })
          ≡ some (error, out', base') =
        rw (answered, other, low, only) at same in
      let k = or_else (related req).context.key "" in
      let asked : lookup_key p (related req) k ≡ k =
        ap (λ hashed. if hashed then p.hash_key k else k) unhashed in
      rw (only, asked)
        (gone_after laws later k (related req) v none error answer out' base1 base' base1.storage
          same')
