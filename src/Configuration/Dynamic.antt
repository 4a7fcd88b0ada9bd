-- ===== src/Configuration/Dynamic.antt =====
-- The values that a configuration is read from: Go's interface{} with the types that the parsers
-- assert, and the loop over a map[string]interface{} whose body may panic. A float is kept as a text.
use mathlib.Core.Path.{subst, fun_ext}
use mathlib.Core.Option.{some-injective}
use souin.Prelude.{
  ◌≡◌, ◌↔◌, refl, any, Bool-cases, inl, inr, true, ap, sym, ◌∙◌, All, >>=-eq-some, >>=_assoc, ℕ,
  String, Bool, true, Option, none, some, List, [], ◌∷◌, ◌++◌, ◌>>=◌,
}
use souin.Prelude.Int.{ℤ}
use souin.Entries.{Entries}

mutual
  pub data Value : Type 0 where
    nil : Value
    text : String → Value
    bool : Bool → Value
    int : ℤ → Value
    uint64 : ℕ → Value
    duration : ℤ → Value
    float : String → Value
    bytes : String → Value
    texts : List String → Value
    ints : List ℤ → Value
    array : Items → Value
    object : Fields → Value

  pub data Items : Type 0 where
    end : Items
    item : Value → Items → Items

  pub data Fields : Type 0 where
    done : Fields
    field : String → Value → Fields → Fields

-- The entries of a map, in the order in which a loop meets them.
unfoldable pub entries : Fields → Entries Value
entries done = []
entries (field k v m) = (k, v) ∷ entries m

abbrev pub fields_of : Entries Value → Fields
fields_of [] = done
fields_of ((k, v) ∷ m) = field k v (fields_of m)

unfoldable pub items : Items → List Value
items end = []
items (item v vs) = v ∷ items vs

-- The type assertions; `none` is that the value has another type.
unfoldable pub as_text : Value → Option String
as_text (text s) = some s
as_text _ = none

unfoldable pub as_bool : Value → Option Bool
as_bool (bool b) = some b
as_bool _ = none

unfoldable pub as_int : Value → Option ℤ
as_int (int n) = some n
as_int _ = none

unfoldable pub as_uint64 : Value → Option ℕ
as_uint64 (uint64 n) = some n
as_uint64 _ = none

unfoldable pub as_object : Value → Option (Entries Value)
unfolding entries
as_object (object m) = some (entries m)
as_object _ = none

-- v.([]interface{})
unfoldable pub as_array : Value → Option (List Value)
unfolding items
as_array (array vs) = some (items vs)
as_array _ = none

-- s, _ := v.(string)
unfoldable pub text_or_empty : Value → String
text_or_empty (text s) = s
text_or_empty _ = ""

-- A result for each element, where each of them may panic.
unfoldable pub each : {A : Type 0} → (Value → Option A) → List Value → Option (List A)
each f [] = some []
each f (v ∷ vs) = do a ← f v; rest ← each f vs; some (a ∷ rest)

-- A []string, or else a []interface{} of strings.
unfoldable pub as_texts : Value → Option (List String)
unfolding as_array each as_text items
as_texts (texts ss) = some ss
as_texts v = as_array v >>= each as_text

-- A []int, or else a []interface{} of numbers.
unfoldable pub as_ints : Value → Option (List ℤ)
unfolding as_array each as_int items
as_ints (ints ns) = some ns
as_ints v = as_array v >>= each as_int

-- for k, v := range m { … }: the body may panic.
unfoldable pub range_entries :
    {V R : Type 0} → (String → V → R → Option R) → Entries V → R → Option R
range_entries body [] r = some r
range_entries body ((k, v) ∷ m) r = body k v r >>= range_entries body m

pub range_entries_inv :
    {V R : Type 0} (P : R → Type 0) (body : String → V → R → Option R)
    → ((k : String) (v : V) (r r' : R) → P r → body k v r ≡ some r' → P r')
    → (m : Entries V) (r r' : R) → P r
    → range_entries body m r ≡ some r'
    → P r'
unfolding range_entries
range_entries_inv P body keeps [] r r' h e = subst P (some-injective _ _ e) h
range_entries_inv P body keeps ((k, v) ∷ m) r r' h e =
    let (r1, first, rest) = >>=-eq-some (body k v r) (range_entries body m) e in
    range_entries_inv P body keeps m r1 r' (keeps k v r r1 h first) rest

-- The same for rounds whose keys satisfy Q.
pub range_entries_inv_on :
    {V R : Type 0} (Q : String → Type 0) (P : R → Type 0) (body : String → V → R → Option R)
    → ((k : String) (v : V) (r r' : R) → Q k → P r → body k v r ≡ some r' → P r')
    → (m : Entries V) (r r' : R) → All (λ e. Q e.0) m
    → P r
    → range_entries body m r ≡ some r'
    → P r'
unfolding range_entries
range_entries_inv_on Q P body keeps [] r r' q h e = subst P (some-injective _ _ e) h
range_entries_inv_on Q P body keeps ((k, v) ∷ m) r r' (q, qs) h e =
    let (r1, first, rest) = >>=-eq-some (body k v r) (range_entries body m) e in
    range_entries_inv_on Q P body keeps m r1 r' qs (keeps k v r r1 q h first) rest

pub range_entries-append :
    {V R : Type 0} (body : String → V → R → Option R) (m m' : Entries V) (r : R)
    → range_entries body (m ++ m') r ≡ (range_entries body m r >>= range_entries body m')
unfolding range_entries
range_entries-append body [] m' r = refl
range_entries-append body ((k, v) ∷ m) m' r =
    ap (λ f. body k v r >>= f) (fun_ext (λ a. range_entries-append body m m' a))
    ∙ sym (>>=_assoc (body k v r) (range_entries body m) (range_entries body m'))

-- A loop whose rounds panic by their entry alone panics exactly where one of them does.
pub range_entries-none_iff :
    {V R : Type 0} (test : String → V → Bool) (body : String → V → R → Option R)
    → ((k : String) (v : V) (r : R) → (body k v r ≡ none) ↔ (test k v ≡ true))
    → (m : Entries V) (r : R) → (range_entries body m r ≡ none) ↔ (any (λ e. test e.0 e.1) m ≡ true)
unfolding range_entries
range_entries-none_iff test body h [] r = (λ e. absurd (cc), λ e. absurd (cc))
range_entries-none_iff {R = R} test body h ((k, v) ∷ m) r =
    by_round (body k v r) refl (λ r'. range_entries-none_iff test body h m r')
  where
    by_round :
        (o : Option R)
        → body k v r ≡ o
        → ((r' : R) → (range_entries body m r' ≡ none) ↔ (any (λ e. test e.0 e.1) m ≡ true))
        → ((o >>= range_entries body m) ≡ none) ↔ (any (λ e. test e.0 e.1) ((k, v) ∷ m) ≡ true)
    by_round none e ih = (λ _. rw ((h k v r).0 e) refl, λ _. refl)
    by_round (some r') e ih = elim (Bool-cases (test k v)) [
      | inl panics ↦ absurd (cc (e, (h k v r).1 panics))
      | inr runs ↦ rw runs (ih r')
    ]
