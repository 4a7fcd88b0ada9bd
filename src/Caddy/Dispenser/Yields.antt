-- ===== src/Caddy/Dispenser/Yields.antt =====
-- What holds of the result of a parser that succeeds.
use souin.Prelude.{ℕ, zero, suc, String, Bool, true, false, Bool-cases, inl, inr, if◌then◌else◌}
use souin.Caddy.Dispenser.{
  Dispenser, Parsed, ok, err, panic, out_of_fuel, P, ◌>>=◌, pure, fail, rounds, block,
}

module _ {D : Type 0} where
  abbrev pub Good : {A : Type 0} → (A → Type 0) → Parsed (A × D) → Type 0
  Good Q (ok (a, d)) = Q a
  Good Q (err e) = Unit
  Good Q panic = Unit
  Good Q out_of_fuel = Unit

  pub record Yields {A : Type 0} (Q : A → Type 0) (m : P D A) : Type 0 where
    pub run : (d : D) → Good Q (m d)

  pub Yields-pure : {A : Type 0} (Q : A → Type 0) (a : A) → Q a → Yields Q (pure a)
  unfolding pure
  Yields-pure Q a h = record { run = λ d. h }

  pub Yields-fail : {A : Type 0} (Q : A → Type 0) (e : String) → Yields Q (fail e)
  unfolding fail
  Yields-fail Q e = record { run = λ d. tt }

  Good-then :
      {A B : Type 0} (Q : B → Type 0) (r : Parsed (A × D)) (f : A → P D B)
      → ((a : A) → Yields Q (f a))
      → Good Q (elim r as (λ _. Parsed (B × D)) [
        | ok (a, d') ↦ f a d'
        | err e ↦ err e
        | panic ↦ panic
        | out_of_fuel ↦ out_of_fuel
      ])
  Good-then Q (ok (a, d)) f h = (h a).run d
  Good-then Q (err e) f h = tt
  Good-then Q panic f h = tt
  Good-then Q out_of_fuel f h = tt

  pub Yields-bind :
      {A B : Type 0} (Q : B → Type 0) (m : P D A) (f : A → P D B)
      → ((a : A) → Yields Q (f a))
      → Yields Q (m >>= f)
  unfolding ◌>>=◌
  Yields-bind Q m f h = record { run = λ d. Good-then Q (m d) f h }

  pub Yields-if :
      {A : Type 0} (Q : A → Type 0) (t : Bool) (x y : P D A)
      → Yields Q x
      → Yields Q y
      → Yields Q (if t then x else y)
  Yields-if Q true x y hx hy = hx
  Yields-if Q false x y hx hy = hy

  -- The rest of a chain whose first part keeps an invariant.
  pub Good-keeps :
      {A B : Type 0} (I : A → Type 0) (Q : B → Type 0) (r : Parsed (A × D)) (f : A → P D B)
      → Good I r
      → ((a : A) (d : D) → I a → Good Q (f a d))
      → Good Q (elim r as (λ _. Parsed (B × D)) [
        | ok (a, d') ↦ f a d'
        | err e ↦ err e
        | panic ↦ panic
        | out_of_fuel ↦ out_of_fuel
      ])
  Good-keeps I Q (ok (a, d)) f g h = h a d g
  Good-keeps I Q (err e) f g h = tt
  Good-keeps I Q panic f g h = tt
  Good-keeps I Q out_of_fuel f g h = tt

  module _ (h : Dispenser D) where
    rounds-Good :
        {R : Type 0} (I : R → Type 0) (body : String → R → P D R) (nesting : ℕ)
        → ((k : String) (r : R) → I r → Yields I (body k r))
        → (fuel : ℕ) (r : R) (d : D) → I r
        → Good I (rounds h body nesting fuel r d)
    unfolding rounds ◌>>=◌
    rounds-Good I body nesting hb zero r d i = tt
    rounds-Good I body nesting hb (suc fuel) r d i =
        let d' = (h.next_block nesting d).1 in
        elim (Bool-cases (h.next_block nesting d).0) [
          | inl more ↦ rw more (
              Good-keeps I I (body (h.val d') r d') (λ r'. rounds h body nesting fuel r')
                ((hb (h.val d') r i).run d')
                (λ r' d'' i'. rounds-Good I body nesting hb fuel r' d'' i'))
          | inr over ↦ rw over i
        ]

    pub block-Good :
        {R : Type 0} (I : R → Type 0) (body : String → R → P D R)
        → ((k : String) (r : R) → I r → Yields I (body k r))
        → (fuel : ℕ) (r : R) (d : D) → I r
        → Good I (block h body fuel r d)
    unfolding block
    block-Good I body hb fuel r d i = rounds-Good I body (h.nesting d) hb fuel r d i

pub ruleset yields = (Yields-pure, Yields-fail, Yields-bind, Yields-if)

Good-weak :
    {D A : Type 0} (Q I : A → Type 0) (r : Parsed (A × D))
    → ((a : A) → Q a → I a)
    → Good Q r
    → Good I r
Good-weak Q I (ok (a, d)) f h = f a h
Good-weak Q I (err e) f h = tt
Good-weak Q I panic f h = tt
Good-weak Q I out_of_fuel f h = tt

pub Yields-weak :
    {D A : Type 0} (Q I : A → Type 0) (m : P D A) → ((a : A) → Q a → I a) → Yields Q m → Yields I m
Yields-weak Q I m f y = record { run = λ d. Good-weak Q I (m d) f (y.run d) }
