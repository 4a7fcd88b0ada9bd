-- ===== src/Caddy/Dispenser/Ends.antt =====
-- The parsers end: with enough fuel no loop runs out, since each round takes a token.
use souin.Prelude.{
  ℕ, zero, suc, ◌<◌, ◌≤◌, String, ◌≡◌, Bool, true, false, List, [], ◌∷◌, ◌==◌, ◌||◌, Bool-cases,
  inl, inr, arith, if◌then◌else◌,
}
use souin.Entries.{Entries, store}
use souin.Configuration.Dynamic.{Value, fields_of}
use souin.Caddy.Dispenser.{
  Dispenser, Parsed, ok, err, panic, out_of_fuel, P, ◌>>=◌, pure, fail, args, first_of, arg, rounds,
  block, entry_of, recursive_line, parse_caddyfile_recursively,
}

-- What is asked of the dispenser: a number, such as that of the tokens left, that a round of a loop
-- lowers and that no call raises.
pub record Counts {D : Type 0} (h : Dispenser D) (rank : D → ℕ) : Type 0 where
  pub next_falls : (d : D) → (h.next d).0 ≡ true → rank (h.next d).1 < rank d
  pub next_keeps : (d : D) → rank (h.next d).1 ≤ rank d
  pub block_falls :
      (n : ℕ) (d : D) → (h.next_block n d).0 ≡ true → rank (h.next_block n d).1 < rank d
  pub block_keeps : (n : ℕ) (d : D) → rank (h.next_block n d).1 ≤ rank d
  pub args_keep : (d : D) → rank (h.remaining_args d).1 ≤ rank d

module _ {D : Type 0} (rank : D → ℕ) where
  -- The result of a run is not that the fuel ran out, and leaves no more tokens than n.
  abbrev pub Fine : {A : Type 0} → ℕ → Parsed (A × D) → Type 0
  Fine n (ok (a, d)) = rank d ≤ n
  Fine n (err e) = Unit
  Fine n panic = Unit
  Fine n out_of_fuel = ⊥

  pub record Ends {A : Type 0} (b : ℕ) (m : P D A) : Type 0 where
    pub run : (d : D) → rank d < b → Fine (rank d) (m d)

  pub Fine-weak : {A : Type 0} (n k : ℕ) (r : Parsed (A × D)) → n ≤ k → Fine n r → Fine k r
  Fine-weak n k (ok (a, d)) le h = omega arith
  Fine-weak n k (err e) le h = tt
  Fine-weak n k panic le h = tt
  Fine-weak n k out_of_fuel le h = h

  pub Ends-pure : {A : Type 0} (b : ℕ) (a : A) → Ends b (pure a)
  unfolding pure
  Ends-pure b a = record { run = λ d h. omega arith }

  pub Ends-fail : (A : Type 0) (b : ℕ) (e : String) → Ends {A = A} b (fail e)
  unfolding fail
  Ends-fail A b e = record { run = λ d h. tt }

  -- The rest of a chain, from the result of its first part.
  pub Fine-then :
      {A B : Type 0} (n : ℕ) (r : Parsed (A × D)) (f : A → P D B)
      → Fine n r
      → ((a : A) (d : D) → rank d ≤ n → Fine (rank d) (f a d))
      → Fine n (elim r as (λ _. Parsed (B × D)) [
        | ok (a, d') ↦ f a d'
        | err e ↦ err e
        | panic ↦ panic
        | out_of_fuel ↦ out_of_fuel
      ])
  Fine-then n (ok (a, d)) f h k = Fine-weak (rank d) n (f a d) h (k a d h)
  Fine-then n (err e) f h k = tt
  Fine-then n panic f h k = tt
  Fine-then n out_of_fuel f h k = h

  pub Ends-bind :
      {A B : Type 0} (b : ℕ) (m : P D A) (f : A → P D B)
      → Ends b m
      → ((a : A) → Ends b (f a))
      → Ends b (m >>= f)
  unfolding ◌>>=◌
  Ends-bind b m f hm hf = record {
    run = λ d lt. Fine-then (rank d) (m d) f (hm.run d lt) (λ a d' le. (hf a).run d' (omega arith));
  }

  pub Ends-if :
      {A : Type 0} (b : ℕ) (t : Bool) (x y : P D A)
      → Ends b x
      → Ends b y
      → Ends b (if t then x else y)
  Ends-if b true x y hx hy = hx
  Ends-if b false x y hx hy = hy

  module _ (h : Dispenser D) (counts : Counts h rank) where
    pub args-Ends : (b : ℕ) → Ends b (args h)
    unfolding args
    args-Ends b = record { run = λ d lt. counts.args_keep d }

    pub first_of-Ends : (b : ℕ) (words : List String) → Ends b (first_of h words)
    unfolding first_of
    first_of-Ends b [] = record { run = λ d lt. tt }
    first_of-Ends b (a ∷ words) = record { run = λ d lt. omega arith }

    pub arg-Ends : (b : ℕ) → Ends b (arg h)
    unfolding arg
    arg-Ends b = Ends-bind b (args h) (first_of h) (args-Ends b) (first_of-Ends b)

    rounds-Fine :
        {R : Type 0} (body : String → R → P D R) (b nesting : ℕ)
        → ((k : String) (r : R) → Ends b (body k r))
        → (fuel : ℕ) (r : R) (d : D) → rank d < fuel
        → rank d ≤ b
        → Fine (rank d) (rounds h body nesting fuel r d)
    unfolding rounds ◌>>=◌
    rounds-Fine body b nesting hb zero r d lt le = absurd (omega arith)
    rounds-Fine body b nesting hb (suc fuel) r d lt le =
        let d' = (h.next_block nesting d).1 in
        elim (Bool-cases (h.next_block nesting d).0) [
          | inl more ↦
              let falls = counts.block_falls nesting d more in
              rw more (
                Fine-weak (rank d') (rank d) _ (omega arith) (
                  Fine-then (rank d') (body (h.val d') r d') (λ r'. rounds h body nesting fuel r')
                    ((hb (h.val d') r).run d' (omega arith))
                    (λ r' d'' le'.
                      rounds-Fine body b nesting hb fuel r' d'' (omega arith) (omega arith))))
          | inr over ↦ rw over (counts.block_keeps nesting d)
        ]

    -- A loop ends if its body does on fewer tokens.
    pub block-Ends :
        {R : Type 0} (body : String → R → P D R) (b fuel : ℕ)
        → b < fuel
        → ((k : String) (r : R) → Ends b (body k r))
        → (r : R) → Ends (suc b) (block h body fuel r)
    unfolding block
    block-Ends body b fuel lt hb r = record {
      run = λ d less. rounds-Fine body b (h.nesting d) hb fuel r d (omega arith) (omega arith);
    }

    entry_of-Ends :
        (b : ℕ) (nested : P D (Entries Value)) (words : List String)
        → Ends b nested
        → Ends b (entry_of h nested words)
    unfolding entry_of
    entry_of-Ends b nested [] hn =
        Ends-bind b nested _ hn (λ m. Ends-pure b (Value.object (fields_of m)))
    entry_of-Ends b nested (a ∷ []) hn = Ends-pure b (Value.text a)
    entry_of-Ends b nested (a ∷ (c ∷ words)) hn = Ends-pure b (Value.texts (a ∷ (c ∷ words)))

    recursive_line-Ends :
        (b : ℕ) (nested : P D (Entries Value)) (name : String) (input : Entries Value)
        → Ends b nested
        → Ends b (recursive_line h nested name input)
    unfolding recursive_line
    recursive_line-Ends b nested name input hn =
        Ends-if b (name == "}" || name == "{") _ _ (Ends-pure b input) (
          Ends-bind b (args h) _ (args-Ends b) (λ words.
            Ends-bind b (entry_of h nested words) _ (entry_of-Ends b nested words hn)
              (λ v. Ends-pure b (store name v input))))

    pub parse_caddyfile_recursively-Ends :
        (fuel depth : ℕ) → depth ≤ fuel → Ends depth (parse_caddyfile_recursively h fuel depth)
    unfolding parse_caddyfile_recursively
    parse_caddyfile_recursively-Ends fuel zero le = record { run = λ d lt. absurd (omega arith) }
    parse_caddyfile_recursively-Ends fuel (suc depth) le =
        block-Ends (recursive_line h (parse_caddyfile_recursively h fuel depth)) depth fuel
          (omega arith)
          (λ name input.
            recursive_line-Ends depth _ name input
              (parse_caddyfile_recursively-Ends fuel depth (omega arith)))
          []

pub ruleset ends = (Ends-pure, Ends-fail, Ends-bind, Ends-if, args-Ends, arg-Ends, first_of-Ends)
