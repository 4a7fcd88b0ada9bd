-- ===== src/Surrogate/Cdn/Batches.antt =====
-- processBatches: every tag is sent once, in order, in batches of at most thirty.
use souin.Prelude.{
  ℕ, zero, suc, ◌+◌, ◌-◌, ◌≤◌, ◌<◌, ◌≡◌, sym, ◌∙◌, Bool-cases, inl, inr, String, List, [], ◌∷◌,
  length, take, drop, concat, All, take-append-drop, length-take_le, length-drop, take_all,
  drop_all, drop-drop, ltb, arith, if◌then◌else◌,
}
use souin.Surrogate.Cdn.{slice, max_per_batch, batches_from, process_batches}

-- Past the end of the list a slice reaches the end.
slice_lem :
    (arr : List String) (i : ℕ)
    → i < length arr
    → slice arr i (if ltb (length arr) (i + 30) then length arr else i + 30) ≡ take 30 (drop i arr)
slice_lem arr i h = elim (Bool-cases (ltb (length arr) (i + 30))) [
  | inl short ↦ rw short (
      take_all (length arr - i) (drop i arr) (omega (arith, length-drop i arr))
      ∙ sym (take_all 30 (drop i arr) (ground (arith, length-drop i arr))))
  | inr long ↦ rw long (let e : i + 30 - i ≡ 30 = omega arith in rw e)
]

concat-batches_from :
    (fuel : ℕ) (arr : List String) (i : ℕ)
    → length arr ≤ i + fuel
    → concat (batches_from fuel arr i) ≡ drop i arr
unfolding batches_from
concat-batches_from zero arr i h = sym (drop_all i arr (omega arith))
concat-batches_from (suc fuel) arr i h = elim (Bool-cases (ltb i (length arr))) [
  | inl more ↦ rw more (
      rw (slice_lem arr i (ground arith)) (
        rw (concat-batches_from fuel arr (i + 30) (omega arith))
          (rw (← drop-drop 30 i arr) (take-append-drop 30 (drop i arr)))))
  | inr done ↦ rw done (sym (drop_all i arr (ground arith)))
]

-- The length of a batch.
abbrev pub IsBatch : List String → Type 0
IsBatch b = (0 < length b) × (length b ≤ max_per_batch)

IsBatch-take : (xs : List String) → 0 < length xs → IsBatch (take 30 xs)
IsBatch-take [] h = absurd (omega arith)
IsBatch-take (x ∷ xs) h = (omega arith, length-take_le 30 (x ∷ xs))

IsBatch-batches_from :
    (fuel : ℕ) (arr : List String) (i : ℕ) → All IsBatch (batches_from fuel arr i)
unfolding batches_from
IsBatch-batches_from zero arr i = tt
IsBatch-batches_from (suc fuel) arr i = elim (Bool-cases (ltb i (length arr))) [
  | inl more ↦ rw more (
    rw (slice_lem arr i (ground arith))
        (IsBatch-take (drop i arr) (ground (arith, length-drop i arr))),
    IsBatch-batches_from fuel arr (i + 30),
  )
  | inr done ↦ rw done tt
]

-- processBatches sends every tag once and in order, in batches that are not empty and have at
-- most thirty tags.
pub process_batches_lem :
    (arr : List String) → (concat (process_batches arr) ≡ arr) × All IsBatch (process_batches arr)
unfolding process_batches
process_batches_lem arr =
    (concat-batches_from (length arr) arr 0 (omega arith), IsBatch-batches_from (length arr) arr 0)
