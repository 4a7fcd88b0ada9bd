-- ===== src/Middleware/Store/Found.antt =====
-- pkg/middleware/middleware.go: the insertions of Store and the loop over the storers in ServeHTTP,
-- one after the other.
use souin.Prelude.{String, ◌≡◌, refl, ◌∙◌, true, false, Bool, Option, none, some, List, [], ◌∷◌}
use souin.Prelude.Int.{ℤ, ◌+ℤ◌, ltb_ℤ}
use souin.Text.{◌<>◌}
use souin.Http.{Request, Response}
use souin.Http.Headers
use souin.Http.Headers.{Header}
use souin.Storage.{Storer, Revalidator}
use souin.Storage.Contract.{AgreesWith, IndexLaws}
use souin.Middleware.{Printers}
use souin.Middleware.Insertion.{StoredKeys, stored_keys, insert, insert_all, store_in}
use souin.Middleware.Lookup.{Found, lookup_from}

module _ {S : Type 0} (st : Storer S) where
  -- An insertion that reports no failure is a SetMultiLevel without an error.
  store_in-inserted :
      (now : ℤ) (keys : StoredKeys) (response : String) (h : Header) (ma : ℤ) (s s' : S)
      → Headers.get h "X-Souin-Storer" ≡ ""
      → store_in (st ∷ []) now keys response h ma s ≡ some ([], s')
      → st.set_multi_level now keys.base_key keys.varied_key response keys.varied_headers
          (Headers.get h "Etag")
          ma
          keys.varied_key
          s
        ≡ some (false, s')
  unfolding store_in insert_all insert
  store_in-inserted now keys response h ma s s' open_ stored =
      outcome
        (st.set_multi_level now keys.base_key keys.varied_key response keys.varied_headers
          (Headers.get h "Etag") ma keys.varied_key s)
        refl
    where
      outcome :
          (o : Option (Bool × S))
          → st.set_multi_level now keys.base_key keys.varied_key response keys.varied_headers
              (Headers.get h "Etag")
              ma
              keys.varied_key
              s
            ≡ o
          → o ≡ some (false, s')
      outcome none e = absurd (
          let t : Path (Option (List String × S)) none (some ([], s')) =
            rw (store_in, open_, insert_all, insert, e) at stored in
          cc)
      outcome (some (true, t)) e =
          let t' : Path (Option (List String × S))
              (some (("; detail=" <> (st.name t <> "-INSERTION-ERROR")) ∷ [], t)) (some ([], s')) =
            rw (store_in, open_, insert_all, insert, e) at stored in
          absurd (cc)
      outcome (some (false, t)) e =
          let t' : Path (Option (List String × S)) (some ([], t)) (some ([], s')) =
            rw (store_in, open_, insert_all, insert, e) at stored in
          cc

  -- What Store inserts without a failure in a handler's only storer, under a key that has no variant
  -- yet, is what ServeHTTP finds under that key: for every request that has the values of the varied
  -- headers and brings no ETag, until the duration is over, as long as the stored text reads as a
  -- response.
  pub store_in-lookup_from :
      (laws : IndexLaws st) (p : Printers) (now later : ℤ) (rq rq' : Request) (cached_key : String)
      (varied : List String) (response : String) (h : Header) (ma : ℤ) (v : Revalidator)
      (read_as : Response) (s s' : S)
      → Headers.get h "X-Souin-Storer" ≡ ""
      → laws.IsFree
          (stored_keys p rq cached_key varied).base_key
          (stored_keys p rq cached_key varied).varied_key
          ma
          s
      → store_in (st ∷ []) now (stored_keys p rq cached_key varied) response h ma s ≡ some ([], s')
      → AgreesWith (stored_keys p rq cached_key varied).varied_headers rq'
      → v.request_etags ≡ []
      → ltb_ℤ later (now +ℤ ma) ≡ true
      → laws.read response rq' ≡ some read_as
      → (found : Found S) × (s'' : S) × (lookup_from later
            (stored_keys p rq cached_key varied).base_key
            rq'
            v
            []
            (st ∷ [])
            s'
          ≡ some (found, s''))
        × (found.fresh ≡ some read_as)
  unfolding lookup_from
  store_in-lookup_from laws p now later rq rq' cached_key varied response h ma v read_as s s' open_
        free stored agrees bare early reads =
      let keys = stored_keys p rq cached_key varied in
      let (c, s'', got, fresh) =
        laws.get_set_multi_level now later keys.base_key keys.varied_key response
          (Headers.get h "Etag") keys.varied_key keys.varied_headers ma rq' v s s' free
          (store_in-inserted now keys response h ma s s' open_ stored) agrees bare early in
      let hit : c.fresh ≡ some read_as = fresh ∙ reads in
      (
        record {
          fresh = c.fresh;
          stale = c.stale;
          validator = c.validator;
          storer_name = st.name s'';
          earlier = [];
        },
        s'',
        rw (lookup_from, got, hit) refl,
        hit,
      )
