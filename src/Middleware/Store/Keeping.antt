-- ===== src/Middleware/Store/Keeping.antt =====
-- Results of the parts of (*SouinBaseHandler).Store (pkg/middleware/middleware.go) that leave the
-- state as it was unless a condition holds.
use souin.Prelude.{
  ◌≡◌, refl, ◌⊎◌, inl, inr, Bool, true, false, Option, none, some, arith, if◌then◌else◌,
}
use souin.Middleware.Store.{without_error}

-- The result is a panic, or leaves the state as it was, or a condition holds.
pub data KeepsUnless {A B : Type 0} (P : Type 0) (b : B) : Option (A × B) → Type 0 where
  panics : KeepsUnless P b none
  keeps : (a : A) → KeepsUnless P b (some (a, b))
  changes : P → (o : Option (A × B)) → KeepsUnless P b o

pub keeps_weak :
    {A B : Type 0} (P Q : Type 0)
    → (P → Q)
    → (b : B) (o : Option (A × B)) → KeepsUnless P b o
    → KeepsUnless Q b o
keeps_weak P Q f b o panics = panics
keeps_weak P Q f b o (keeps a) = keeps a
keeps_weak P Q f b o (changes h o') = changes (f h) o'

pub keeps_if :
    {A B : Type 0} (P : Type 0)
    → (t : Bool) (b : B) (o o' : Option (A × B)) → (t ≡ true → KeepsUnless P b o)
    → (t ≡ false → KeepsUnless P b o')
    → KeepsUnless P b (if t then o else o')
keeps_if P true b o o' f g = f refl
keeps_if P false b o o' f g = g refl

pub keeps_map :
    {A A' B : Type 0} (P : Type 0)
    → (f : A → A') (b : B) (o : Option (A × B)) → KeepsUnless P b o
    → KeepsUnless P b
        (elim o as (λ _. Option (A' × B)) [ none ↦ none | some (a, b') ↦ some (f a, b') ])
keeps_map P f b o panics = panics
keeps_map P f b o (keeps a) = keeps (f a)
keeps_map P f b o (changes h o') = changes h _

pub keeps_result :
    {A B : Type 0} (P : Type 0) (b : B) (o : Option (A × B)) (e : Bool) (a : A) (b' : B)
    → KeepsUnless P b o
    → without_error o ≡ some (e, a, b')
    → (b' ≡ b) ⊎ P
keeps_result P b o e a b' panics same = absurd (cc)
keeps_result P b o e a b' (keeps a') same = inl (ground arith)
keeps_result P b o e a b' (changes h o') same = inr h
