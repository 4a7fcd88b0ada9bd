-- ===== src/Caddy/Dispenser.antt =====
-- How plugins/caddy/configuration.go reads a Caddyfile: the dispenser of Caddy, which is an argument,
-- the results of a parser, and the loop over the lines of a block.
pub mod Ends
pub mod Yields
use souin.Prelude.{
  ℕ, zero, suc, String, Bool, true, false, Option, none, some, List, [], ◌∷◌, ◌++◌, ◌==◌, ◌||◌,
  if◌then◌else◌,
}
use souin.Entries.{Entries, store}
use souin.Configuration.Dynamic.{Value, fields_of}

-- The methods of caddyfile.Dispenser that the parser calls, each with the state that it leaves.
pub record Dispenser (D : Type 0) : Type 0 where
  pub next : D → Bool × D
  pub next_block : ℕ → D → Bool × D
  pub val : D → String
  pub remaining_args : D → List String × D
  pub nesting : D → ℕ

-- A result, or an error with its message, or the panic of an index out of range; the loops take
-- fuel, which may run out.
pub data Parsed (A : Type 0) : Type 0 where
  ok : A → Parsed A
  err : String → Parsed A
  panic : Parsed A
  out_of_fuel : Parsed A

abbrev pub P : Type 0 → Type 0 → Type 0
P D A = D → Parsed (A × D)

infixl 5 ◌>>=◌
unfoldable pub ◌>>=◌ : {D A B : Type 0} → P D A → (A → P D B) → P D B
◌>>=◌ {D} {A} {B} m f d = elim (m d) as (λ _. Parsed (B × D)) [
  | ok (a, d') ↦ f a d'
  | err e ↦ err e
  | panic ↦ panic
  | out_of_fuel ↦ out_of_fuel
]

unfoldable pub pure : {D A : Type 0} → A → P D A
pure a d = ok (a, d)

unfoldable pub fail : {D A : Type 0} → String → P D A
fail e d = err e

module _ {D : Type 0} (h : Dispenser D) where
  unfoldable pub args : P D (List String)
  args d = ok (h.remaining_args d)

  unfoldable pub first_of : List String → P D String
  first_of [] d = panic
  first_of (a ∷ _) d = ok (a, d)

  -- h.RemainingArgs()[0]
  unfoldable pub arg : P D String
  unfolding ◌>>=◌ args first_of
  arg = do words ← args; first_of words

  -- The rounds of `for h.NextBlock(nesting) { … }`: the body is given h.Val().
  unfoldable pub rounds : {R : Type 0} → (String → R → P D R) → ℕ → ℕ → R → P D R
  rounds body nesting zero r d = out_of_fuel
  rounds {R} body nesting (suc fuel) r d =
      let (more, d') = h.next_block nesting d in
      let round : Parsed (R × D) =
        ◌>>=◌ (body (h.val d') r) (λ r'. rounds body nesting fuel r') d' in
      if more then round else ok (r, d')

  -- for nesting := h.Nesting(); h.NextBlock(nesting); { … }
  unfoldable pub block : {R : Type 0} → (String → R → P D R) → ℕ → R → P D R
  unfolding rounds
  block body fuel r d = rounds body (h.nesting d) fuel r d

  -- What parseCaddyfileRecursively puts under a name with these arguments.
  unfoldable pub entry_of : P D (Entries Value) → List String → P D Value
  entry_of nested (a ∷ []) = pure (Value.text a)
  entry_of nested (a ∷ (b ∷ words)) = pure (Value.texts (a ∷ (b ∷ words)))
  entry_of nested [] = nested >>= λ m. pure (Value.object (fields_of m))

  -- parseCaddyfileRecursively: `nested` parses the blocks inside.
  unfoldable pub recursive_line : P D (Entries Value) → String → Entries Value → P D (Entries Value)
  unfolding entry_of store
  recursive_line nested name input =
      if name == "}" || name == "{"
      then pure input
      else (args >>= λ words. entry_of nested words >>= λ v. pure (store name v input))

  unfoldable pub parse_caddyfile_recursively : ℕ → ℕ → P D (Entries Value)
  unfolding block recursive_line
  parse_caddyfile_recursively fuel zero d = out_of_fuel
  parse_caddyfile_recursively fuel (suc depth) d =
      block (recursive_line (parse_caddyfile_recursively fuel depth)) fuel [] d
