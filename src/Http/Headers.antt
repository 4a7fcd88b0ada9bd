-- ===== src/Http/Headers.antt =====
-- http.Header: a map from canonical names to values. Its order is that of insertion here.
use souin.Prelude.{String, ◌≡◌, refl, List, [], ◌∷◌, ◌++◌, ◌==◌, eq_iff, arith, if◌then◌else◌}
use souin.Text.Case.{canonical_key}

abbrev pub Header : Type 0
Header = List (String × List String)

abbrev pub empty : Header
empty = []

-- h[k]
unfoldable pub lookup : String → Header → List String
lookup k [] = []
lookup k ((j, vs) ∷ h) = if j == k then vs else lookup k h

-- h[k] = vs
unfoldable pub put : String → List String → Header → Header
put k vs [] = (k, vs) ∷ []
put k vs ((j, ws) ∷ h) = if j == k then (k, vs) ∷ h else (j, ws) ∷ put k vs h

-- delete(h, k)
unfoldable pub remove : String → Header → Header
remove k [] = []
remove k ((j, vs) ∷ h) = let rest = remove k h in if j == k then rest else (j, vs) ∷ rest

abbrev pub first : List String → String
first [] = ""
first (v ∷ vs) = v

-- h.Values(name)
unfoldable pub values : Header → String → List String
values h name = lookup (canonical_key name) h

-- h.Get(name)
unfoldable pub get : Header → String → String
unfolding values
get h name = first (values h name)

-- h.Set(name, v)
unfoldable pub set : Header → String → String → Header
set h name v = put (canonical_key name) (v ∷ []) h

-- h.Add(name, v)
unfoldable pub add : Header → String → String → Header
unfolding values
add h name v = put (canonical_key name) (values h name ++ v ∷ []) h

-- h.Del(name)
unfoldable pub del : Header → String → Header
del h name = remove (canonical_key name) h

-- maps.Copy(to, from)
unfoldable pub copy : Header → Header → Header
copy to [] = to
copy to ((k, vs) ∷ from) = copy (put k vs to) from

pub lookup-put :
    (k j : String) (vs : List String) (h : Header)
    → lookup j (put k vs h) ≡ (if k == j then vs else lookup j h)
unfolding lookup put
lookup-put k j vs [] = refl
lookup-put k j vs ((i, ws) ∷ h) =
    ground (arith, eq_iff k j, eq_iff i k, eq_iff i j, lookup-put k j vs h)

pub lookup-remove :
    (k j : String) (h : Header) → lookup j (remove k h) ≡ (if k == j then [] else lookup j h)
unfolding lookup remove
lookup-remove k j [] = ground arith
lookup-remove k j ((i, ws) ∷ h) =
    ground (arith, eq_iff k j, eq_iff i k, eq_iff i j, lookup-remove k j h)

pub get-set :
    (h : Header) (k j v : String)
    → get (set h k v) j ≡ (if canonical_key k == canonical_key j then v else get h j)
unfolding get set
get-set h k j v = ground (arith, lookup-put (canonical_key k) (canonical_key j) (v ∷ []) h)

pub get-del :
    (h : Header) (k j : String)
    → get (del h k) j ≡ (if canonical_key k == canonical_key j then "" else get h j)
unfolding get del
get-del h k j = ground (arith, lookup-remove (canonical_key k) (canonical_key j) h)
