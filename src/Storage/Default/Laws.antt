-- ===== src/Storage/Default/Laws.antt =====
-- What reads of the storage in memory return after its writes.
use souin.Prelude.{
  String, ◌≡◌, refl, ◌&&◌, Option, none, some, [], ◌∷◌, ◌==◌, eq_iff, is_some, arith, if◌then◌else◌,
}
use souin.Prelude.Int.{ℤ, ◌≤ℤ◌, ◌+ℤ◌}
use souin.Entries.{Entries, load, load-store, load-erase, load-erase}
use souin.Storage.Contract.{StorerLaws}
use souin.Storage.Default.{
  default_storer, Stored, item, bytes, mapper, Default, Library, after, get_stored, get, set,
  delete, selected, delete_entries, delete_many,
}

-- The value that an entry gives at a time.
abbrev pub shown : ℤ → Option Stored → String
shown now none = ""
shown now (some (item invalid_at value)) = if after invalid_at now then value else ""
shown now (some (bytes b)) = ""
shown now (some (mapper mapping)) = ""

pub get-shown : (now : ℤ) (k : String) (p : Default) → (get now k p).0 ≡ shown now (load k p.m)
unfolding get
get-shown now k p = elim-shown (load k p.m)
  where
    elim-shown : (o : Option Stored) → (get_stored now k o p).0 ≡ shown now o
    elim-shown none = refl
    elim-shown (some (item t v)) = ground arith
    elim-shown (some (bytes b)) = refl
    elim-shown (some (mapper l)) = refl

-- After Set, Get of that key returns the value while the time is before the end of its life, and
-- nothing from then on; Get of another key returns what it did.
pub get-set :
    (now later : ℤ) (k j value : String) (duration : ℤ) (p : Default)
    → (get later j (set now k value duration p).1).0
      ≡ (if k == j then if after (now +ℤ duration) later then value else "" else (get later j p).0)
unfolding set
get-set now later k j value duration p = ground (
  arith,
  get-shown later j (set now k value duration p).1,
  get-shown later j p,
  load-store k j (item (now +ℤ duration) value) p.m,
)

pub load-delete :
    (k j : String) (p : Default) → load j (delete k p).m ≡ (if k == j then none else load j p.m)
unfolding delete
load-delete k j p = load-erase k j p.m

module _ (lib : Library) where
  -- The loop of DeleteMany, on the keys that it has still to meet.
  load-delete_entries :
      (pattern j : String) (m : Entries Stored) (p : Default)
      → load j (delete_entries lib pattern m p).m
        ≡ (if selected lib pattern j && is_some (load j m) then none else load j p.m)
  unfolding delete_entries load
  load-delete_entries pattern j [] p = ground arith
  load-delete_entries pattern j ((k, v) ∷ m) p = ground (
    arith,
    load-delete_entries pattern j m (if selected lib pattern k then delete k p else p),
    load-delete k j p,
    eq_iff k j,
  )

  -- DeleteMany takes away exactly the keys that match the pattern or begin with it, and leaves
  -- every other entry as it was.
  pub load-delete_many :
      (pattern j : String) (p : Default)
      → load j (delete_many lib pattern p).m ≡ (if selected lib pattern j then none else load j p.m)
  unfolding delete_many
  load-delete_many pattern j p = ground (arith, load-delete_entries pattern j p.m p)

pub get-delete :
    (later : ℤ) (k j : String) (p : Default)
    → (get later j (delete k p)).0 ≡ (if k == j then "" else (get later j p).0)
get-delete later k j p =
    ground (arith, get-shown later j (delete k p), get-shown later j p, load-delete k j p)

shown-get :
    (now later : ℤ) (k j : String) (p : Default)
    → now ≤ℤ later
    → shown later (load j (get now k p).1.m) ≡ shown later (load j p.m)
unfolding get
shown-get now later k j p h = go (load k p.m) refl
  where
    go :
        (o : Option Stored)
        → load k p.m ≡ o
        → shown later (load j (get_stored now k o p).1.m) ≡ shown later (load j p.m)
    go none e = refl
    go (some (item t v)) e = ground (arith, load-erase k j p.m, eq_iff k j)
    go (some (bytes b)) e = refl
    go (some (mapper l)) e = refl

-- What has expired stays expired, so the entry that a Get drops is not missed.
pub get-get :
    (now later : ℤ) (k j : String) (p : Default)
    → now ≤ℤ later
    → (get later j (get now k p).1).0 ≡ (get later j p).0
get-get now later k j p h =
    cc (get-shown later j (get now k p).1, shown-get now later k j p h, get-shown later j p)

pub get-delete_many :
    (lib : Library) (later : ℤ) (k j : String) (p : Default)
    → (get later j p).0 ≡ ""
    → (get later j (delete_many lib k p)).0 ≡ ""
get-delete_many lib later k j p h = ground (
  arith,
  get-shown later j p,
  get-shown later j (delete_many lib k p),
  load-delete_many lib k j p,
)

abbrev pub default_storer-laws : (lib : Library) → StorerLaws (default_storer lib)
default_storer-laws lib = record {
  alive = λ now duration later. after (now +ℤ duration) later;
  get_set = get-set;
  get_delete = get-delete;
  get_get = get-get;
  get_delete_many = get-delete_many lib;
}
