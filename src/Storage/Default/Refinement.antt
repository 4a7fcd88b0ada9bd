-- ===== src/Storage/Default/Refinement.antt =====
-- The storage in memory of pkg/storage/defaultProvider.go against what it promises: a table of texts,
-- each with the end of its life, from which a read takes nothing away.
use souin.Prelude.{
  String, ◌≡◌, refl, ◌∙◌, Option, none, some, List, [], ◌∷◌, ◌==◌, arith, if◌then◌else◌,
}
use souin.Prelude.Int.{ℤ, ◌≤ℤ◌, ◌+ℤ◌}
use souin.Entries.{load}
use souin.Storage.Default.{Default, Library, after, get, set, delete, selected, delete_many, reset}
use souin.Storage.Default.Laws.{get-shown, get-set, get-delete, get-get, load-delete_many}

-- A key may hold the end of a life, and a value.
abbrev pub Table : Type 0
Table = String → Option (ℤ × String)

abbrev pub read : ℤ → Option (ℤ × String) → String
read now none = ""
read now (some (until, value)) = if after until now then value else ""

pub data Command : Type 0 where
  get_value : String → Command
  set_value : String → String → ℤ → Command
  delete_key : String → Command
  delete_matching : String → Command
  reset_all : Command

module _ (lib : Library) where
  -- One command on the table, with what a read returns.
  abbrev pub table_step : ℤ → Command → Table → String × Table
  table_step now (get_value k) t = (read now (t k), t)
  table_step now (set_value k value duration) t =
      ("", λ j. if k == j then some (now +ℤ duration, value) else t j)
  table_step now (delete_key k) t = ("", λ j. if k == j then none else t j)
  table_step now (delete_matching pattern) t =
      ("", λ j. if selected lib pattern j then none else t j)
  table_step now reset_all t = ("", λ j. none)

  -- The same command on the storage.
  abbrev pub storage_step : ℤ → Command → Default → String × Default
  storage_step now (get_value k) p = get now k p
  storage_step now (set_value k value duration) p = ("", (set now k value duration p).1)
  storage_step now (delete_key k) p = ("", delete k p)
  storage_step now (delete_matching pattern) p = ("", delete_many lib pattern p)
  storage_step now reset_all p = ("", (reset p).1)

  -- What the reads of a schedule return.
  abbrev pub outputs :
      {T : Type 0} → (ℤ → Command → T → String × T) → List (ℤ × Command) → T → List String
  outputs step [] t = []
  outputs step ((now, c) ∷ rest) t = let (s, t') = step now c t in s ∷ outputs step rest t'

  -- The times of a schedule do not fall.
  abbrev pub IsOrdered : ℤ → List (ℤ × Command) → Type 0
  IsOrdered start [] = Unit
  IsOrdered start ((now, c) ∷ rest) = (start ≤ℤ now) × IsOrdered now rest

  -- From a time on the storage shows what the table says.
  abbrev pub Agrees : ℤ → Default → Table → Type 0
  Agrees start p t =
      (later : ℤ) (j : String) → start ≤ℤ later → (get later j p).0 ≡ read later (t j)

  get-delete_many :
      (later : ℤ) (pattern j : String) (p : Default)
      → (get later j (delete_many lib pattern p)).0
        ≡ (if selected lib pattern j then "" else (get later j p).0)
  get-delete_many later pattern j p = ground (
    arith,
    get-shown later j (delete_many lib pattern p),
    get-shown later j p,
    load-delete_many lib pattern j p,
  )

  get-reset : (later : ℤ) (j : String) (p : Default) → (get later j (reset p).1).0 ≡ ""
  unfolding reset get load
  get-reset later j p = refl

  step-Agrees :
      (start now : ℤ) (c : Command) (p : Default) (t : Table)
      → start ≤ℤ now
      → Agrees start p t
      → ((storage_step now c p).0 ≡ (table_step now c t).0)
        × Agrees now (storage_step now c p).1 (table_step now c t).1
  step-Agrees start now (get_value k) p t le a =
      (a now k le, λ later j le'. get-get now later k j p le' ∙ a later j (omega arith))
  step-Agrees start now (set_value k value duration) p t le a =
      (refl, λ later j le'. ground (arith, get-set now later k j value duration p, a later j))
  step-Agrees start now (delete_key k) p t le a =
      (refl, λ later j le'. ground (arith, get-delete later k j p, a later j))
  step-Agrees start now (delete_matching pattern) p t le a =
      (refl, λ later j le'. ground (arith, get-delete_many later pattern j p, a later j))
  step-Agrees start now reset_all p t le a = (refl, λ later j le'. get-reset later j p)

  -- The storage implements the table: on every schedule of Get, Set, Delete, DeleteMany and Reset whose
  -- times do not fall, the reads return what those on the table do.
  pub outputs-refine :
      (start : ℤ) (schedule : List (ℤ × Command)) (p : Default) (t : Table)
      → Agrees start p t
      → IsOrdered start schedule
      → outputs storage_step schedule p ≡ outputs table_step schedule t
  outputs-refine start [] p t a ordered = refl
  outputs-refine start ((now, c) ∷ rest) p t a (le, ordered) =
      let (same, a') = step-Agrees start now c p t le a in
      rw (same, outputs-refine now rest (storage_step now c p).1 (table_step now c t).1 a' ordered)
        refl
