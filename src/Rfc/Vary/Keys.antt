-- ===== src/Rfc/Vary/Keys.antt =====
-- When two requests get one variant's key.
use Prim.Native.String.{[], ◌∷◌}
use text.Mathlib.TextLemmas.{nil-append, cons-append, append_assoc, append_cancel_left}
use souin.Prelude.{
  String, ◌≡◌, refl, sym, ap, ◌∙◌, true, false, ◌||◌, List, [], ◌∷◌, map, All, or_else, Has, ◌↔◌,
  arith,
}
use souin.Text.{◌<>◌, contains, has_prefix, join, trim_space}
use souin.Text.Escape.{query_escape}
use souin.Text.RoundTrip.{IsBytes}
use souin.Text.Safe.{query_escape-IsSafe, not-contains, trim_space-IsSafe}
use souin.Text.Members.{listed_iff}
use souin.Http.{Request}
use souin.Http.Headers
use souin.Http.Headers.{Header}
use souin.Rfc.{header_all_comma_sep_values}
use souin.Rfc.Vary.{
  varied_value, varied_header, get_varied_cache_key, varied_header_all_comma_sep_values,
}

-- A request's value of a header has neither ";" nor ":", so that it stands in the key as it is.
abbrev pub IsPlain : Request → String → Type 0
IsPlain rq name =
    (contains (trim_space (Headers.get rq.header name)) ";" ≡ false)
    × (contains (trim_space (Headers.get rq.header name)) ":" ≡ false)

-- Two requests have the same value of a header, but for blanks around it.
abbrev pub Agree : Request → Request → String → Type 0
Agree rq rq' name =
    trim_space (Headers.get rq.header name) ≡ trim_space (Headers.get rq'.header name)

varied_header-IsPlain :
    (rq : Request) (name : String)
    → IsPlain rq name
    → varied_header rq name ≡ name <> (":" <> trim_space (Headers.get rq.header name))
unfolding varied_header varied_value
varied_header-IsPlain rq name (a, b) = rw (a, b) refl

map-varied_header :
    (rq rq' : Request) (names : List String)
    → All (IsPlain rq) names
    → All (IsPlain rq') names
    → All (Agree rq rq') names
    → map (varied_header rq) names ≡ map (varied_header rq') names
map-varied_header rq rq' [] p p' h = refl
map-varied_header rq rq' (name ∷ names) p p' h = ground (
  arith,
  map-varied_header rq rq' names p.1 p'.1 h.1,
  varied_header-IsPlain rq name p.0,
  varied_header-IsPlain rq' name p'.0,
)

semicolon : (x : String) → Path String (";" <> x) (";" ∷ x)
semicolon x = cons-append ";" "" x ∙ ap (λ (t : String). ";" ∷ t) (nil-append x)

contains-semicolon : (s : String) → contains (";" ∷ s) ";" ≡ true
unfolding contains has_prefix
contains-semicolon s = refl

-- Texts without ";" end at the first ";" of what they are joined to.
separated :
    (s t x y : String)
    → contains s ";" ≡ false
    → contains t ";" ≡ false
    → s <> (";" <> x) ≡ t <> (";" <> y)
    → (s ≡ t) × (x ≡ y)
unfolding contains has_prefix
separated [] [] x y a b e =
    let e' : ";" <> x ≡ ";" <> y = rw (nil-append (";" <> x), nil-append (";" <> y)) at e in
    (refl, append_cancel_left ";" x y e')
separated [] (d ∷ t) x y a b e =
    let e' : Path String (";" ∷ x) (d ∷ (t <> (";" <> y))) =
      sym (semicolon x) ∙ sym (nil-append (";" <> x)) ∙ e ∙ cons-append d t (";" <> y) in
    absurd (cc (e', b, contains-semicolon t))
separated (c ∷ s) [] x y a b e =
    let e' : Path String (c ∷ (s <> (";" <> x))) (";" ∷ y) =
      sym (cons-append c s (";" <> x)) ∙ e ∙ nil-append (";" <> y) ∙ semicolon y in
    absurd (cc (e', a, contains-semicolon s))
separated (c ∷ s) (d ∷ t) x y a b e =
    let e' : Path String (c ∷ (s <> (";" <> x))) (d ∷ (t <> (";" <> y))) =
      sym (cons-append c s (";" <> x)) ∙ e ∙ cons-append d t (";" <> y) in
    let (same, rest) = separated s t x y (ground arith) (ground arith) (cc) in (cc, rest)

-- What stands before the value can be left out.
same_value :
    (rq rq' : Request) (name : String)
    → IsPlain rq name
    → IsPlain rq' name
    → varied_header rq name ≡ varied_header rq' name
    → Agree rq rq' name
same_value rq rq' name p p' e = append_cancel_left ":" _ _ (
    append_cancel_left name _ _
      (sym (varied_header-IsPlain rq name p) ∙ e ∙ varied_header-IsPlain rq' name p'))

header_then :
    (rq : Request) (name rest : String)
    → IsPlain rq name
    → varied_header rq name <> rest
      ≡ name <> (":" <> (trim_space (Headers.get rq.header name) <> rest))
header_then rq name rest p =
    let v = trim_space (Headers.get rq.header name) in
    ap (λ t. t <> rest) (varied_header-IsPlain rq name p)
    ∙ append_assoc name (":" <> v) rest
    ∙ ap (λ t. name <> t) (append_assoc ":" v rest)

Agree-join :
    (rq rq' : Request) (names : List String)
    → All (IsPlain rq) names
    → All (IsPlain rq') names
    → join (map (varied_header rq) names) ";" ≡ join (map (varied_header rq') names) ";"
    → All (Agree rq rq') names
unfolding join
Agree-join rq rq' [] p p' e = tt
Agree-join rq rq' (name ∷ []) p p' e = (same_value rq rq' name p.0 p'.0 e, tt)
Agree-join rq rq' (name ∷ (next ∷ names)) p p' e =
    let later = join (map (varied_header rq) (next ∷ names)) ";" in
    let later' = join (map (varied_header rq') (next ∷ names)) ";" in
    let whole : name <> (":" <> (trim_space (Headers.get rq.header name) <> (";" <> later)))
        ≡ name <> (":" <> (trim_space (Headers.get rq'.header name) <> (";" <> later'))) =
      sym (header_then rq name (";" <> later) p.0)
      ∙ e
      ∙ header_then rq' name (";" <> later') p'.0 in
    let (same, rest) =
      separated _ _ later later' p.0.0 p'.0.0
        (append_cancel_left ":" _ _ (append_cancel_left name _ _ whole)) in
    (same, Agree-join rq rq' (next ∷ names) p.1 p'.1 rest)

-- The key of a variant, where variants are not turned off and no value of a varied header has ";" or
-- ":": two requests get the same key exactly if they have the same values of all varied headers, but
-- for blanks around them.
pub get_varied_cache_key_iff :
    (rq rq' : Request) (names : List String)
    → or_else rq.context.disable_vary false ≡ false
    → or_else rq'.context.disable_vary false ≡ false
    → All (IsPlain rq) names
    → All (IsPlain rq') names
    → ((get_varied_cache_key rq names).0 ≡ (get_varied_cache_key rq' names).0)
      ↔ All (Agree rq rq') names
unfolding get_varied_cache_key
get_varied_cache_key_iff rq rq' [] d d' p p' = ((λ _. tt), (λ _. refl))
get_varied_cache_key_iff rq rq' (name ∷ names) d d' p p' = (
  (λ e.
      let e' : "{-VARY-}" <> join (map (varied_header rq) (name ∷ names)) ";"
          ≡ "{-VARY-}" <> join (map (varied_header rq') (name ∷ names)) ";" =
        rw (d, d') at e in
      Agree-join rq rq' (name ∷ names) p p' (append_cancel_left "{-VARY-}" _ _ e')),
  (λ h.
      rw (d, d')
        (ap (λ l. "{-VARY-}" <> join l ";") (map-varied_header rq rq' (name ∷ names) p p' h))),
)

-- No byte of a text that contains neither ";" nor ":" changes the text's value for the key.
varied_value_plain :
    (v : String)
    → trim_space v ≡ v
    → contains v ";" ≡ false
    → contains v ":" ≡ false
    → varied_value v ≡ v
unfolding varied_value
varied_value_plain v t a b = rw (t, a, b)

varied_value_escaped :
    (v : String)
    → trim_space v ≡ v
    → (contains v ";" || contains v ":") ≡ true
    → varied_value v ≡ query_escape v
unfolding varied_value
varied_value_escaped v t a = rw (t, a)

-- Two values of a header with one part of the key: a value with ";" or ":" is escaped, and the
-- text that it is escaped to, sent as a value, stays as it is.
pub varied_value_collision :
    (v : String)
    → IsBytes v
    → trim_space v ≡ v
    → (contains v ";" || contains v ":") ≡ true
    → varied_value (query_escape v) ≡ varied_value v
varied_value_collision v b t special =
    let safe = query_escape-IsSafe v b in
    varied_value_plain (query_escape v) (trim_space-IsSafe (query_escape v) safe)
      (not-contains (query_escape v) safe).0 (not-contains (query_escape v) safe).1
    ∙ sym (varied_value_escaped v t special)

-- Values without ";" and ":" that differ, but for blanks around them, get different parts.
pub varied_value_inj :
    (v w : String)
    → (contains (trim_space v) ";" || contains (trim_space v) ":") ≡ false
    → (contains (trim_space w) ";" || contains (trim_space w) ":") ≡ false
    → varied_value v ≡ varied_value w
    → trim_space v ≡ trim_space w
unfolding varied_value
varied_value_inj v w a b e = ground arith

-- A response that varies on "*" is reported so, and on nothing else.
pub varied_star_iff :
    (h : Header)
    → ((varied_header_all_comma_sep_values h).1 ≡ true)
      ↔ Has "*" (header_all_comma_sep_values h "Vary")
unfolding varied_header_all_comma_sep_values
varied_star_iff h = ground (arith, listed_iff "*" (header_all_comma_sep_values h "Vary"))
