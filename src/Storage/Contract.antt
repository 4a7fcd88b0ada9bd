-- ===== src/Storage/Contract.antt =====
-- What the clients of a storage rely on: how Get sees Set, Delete, DeleteMany and another Get.
use souin.Prelude.{String, ◌≡◌, Bool, true, false, Option, none, some, [], All, ◌==◌, if◌then◌else◌}
use souin.Prelude.Int.{ℤ, ◌≤ℤ◌, ◌+ℤ◌, ltb_ℤ}
use souin.Text.{◌<>◌, join}
use souin.Http.{Request, Response}
use souin.Http.Headers
use souin.Http.Headers.{Header}
use souin.Storage.{Storer, Revalidator, Candidates, mapping_key_prefix}

pub record StorerLaws {S : Type 0} (st : Storer S) : Type 0 where
  -- whether a value that was set at a time, with a duration, is there at a later time
  pub alive : ℤ → ℤ → ℤ → Bool
  pub get_set :
      (now later : ℤ) (k j value : String) (duration : ℤ) (s : S)
      → (st.get later j (st.set now k value duration s).1).0
        ≡ (if k == j then if alive now duration later then value else "" else (st.get later j s).0)
  pub get_delete :
      (later : ℤ) (k j : String) (s : S)
      → (st.get later j (st.delete k s)).0 ≡ (if k == j then "" else (st.get later j s).0)
  pub get_get :
      (now later : ℤ) (k j : String) (s : S)
      → now ≤ℤ later
      → (st.get later j (st.get now k s).1).0 ≡ (st.get later j s).0
  pub get_delete_many :
      (later : ℤ) (k j : String) (s : S)
      → (st.get later j s).0 ≡ ""
      → (st.get later j (st.delete_many k s)).0 ≡ ""

-- A request that has the values of the varied headers that an index keeps.
abbrev pub AgreesWith : Header → Request → Type 0
AgreesWith varied req = All (λ e. Headers.get req.header e.0 ≡ join e.1 ", ") varied

-- What they rely on of the index: how GetMultiLevel sees SetMultiLevel and Delete.
pub record IndexLaws {S : Type 0} (st : Storer S) : Type 1 where
  -- the response that a stored text is read as, for a request
  pub read : String → Request → Option Response
  -- that a base key has no other variant yet, and the storage keeps a value under the varied key for
  -- at least the duration
  pub IsFree : String → String → ℤ → S → Type 0
  pub get_set_multi_level :
      (now later : ℤ) (base key value etag real : String) (varied : Header) (duration : ℤ)
      (req : Request) (v : Revalidator) (s s' : S)
      → IsFree base key duration s
      → st.set_multi_level now base key value varied etag duration real s ≡ some (false, s')
      → AgreesWith varied req
      → v.request_etags ≡ []
      → ltb_ℤ later (now +ℤ duration) ≡ true
      → (c : Candidates) × (s'' : S) × (st.get_multi_level later base req v s' ≡ some (c, s''))
        × (c.fresh ≡ read value req)
  -- nothing is found under a base key whose index is deleted
  pub get_delete_multi_level :
      (later : ℤ) (base : String) (req : Request) (v : Revalidator) (s : S)
      → st.get_multi_level later base req v (st.delete (mapping_key_prefix <> base) s)
        ≡ some (
          record { fresh = none; stale = none; validator = v },
          st.delete (mapping_key_prefix <> base) s,
        )
