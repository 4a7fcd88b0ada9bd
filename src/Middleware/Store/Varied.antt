-- ===== src/Middleware/Store/Varied.antt =====
-- pkg/middleware/middleware.go: what Store leaves of the header Vary before it looks for "*" in it.
use souin.Prelude.{
  String, ◌≡◌, refl, ap, ◌∙◌, inl, inr, Bool, true, false, List, [], ◌∷◌, ◌==◌, Has, map, concat,
  Bool-cases, arith, if◌then◌else◌,
}
use souin.Prelude.Int.{ℤ}
use souin.Text.Case.{canonical_key}
use souin.Text.{split, trim_space}
use souin.Rfc.Vary.Keys.{varied_star_iff}
use souin.Clock.{Dates}
use souin.Http.Headers
use souin.Http.Headers.{Header, lookup-put, lookup-remove}
use souin.Rfc.{header_all_comma_sep_values}
use souin.Rfc.Vary.{varied_header_all_comma_sep_values}
use souin.Rfc.CacheStatus.{stored_ttl_header, stored_length_header}
use souin.Middleware.Writer.{CustomWriter, is_detached, header, change_header}
use souin.Middleware.Store.{without_fields, set_if_missing, response_header}

abbrev vary : Header → List String
vary h = Headers.values h "Vary"

vary-set :
    (h : Header) (k v : String)
    → (canonical_key k == canonical_key "Vary") ≡ false
    → vary (Headers.set h k v) ≡ vary h
unfolding Headers.values Headers.set
vary-set h k v other =
    lookup-put (canonical_key k) (canonical_key "Vary") (v ∷ []) h ∙ rw other refl

vary-set_if_missing :
    (name v : String) (h : Header)
    → (canonical_key name == canonical_key "Vary") ≡ false
    → vary (set_if_missing name v h) ≡ vary h
vary-set_if_missing name v h other = elim (Bool-cases (Headers.get h name == "")) [
  | inl e ↦ rw e (vary-set h name v other)
  | inr e ↦ rw e refl
]

vary-del :
    (h h' : Header) (name : String)
    → vary h ≡ vary h'
    → vary (Headers.del h name) ≡ vary (Headers.del h' name)
unfolding Headers.values Headers.del
vary-del h h' name same = ground (
  arith,
  lookup-remove (canonical_key name) (canonical_key "Vary") h,
  lookup-remove (canonical_key name) (canonical_key "Vary") h',
)

vary-without_fields :
    (fields : List (String × Bool)) (h h' : Header)
    → vary h ≡ vary h'
    → vary (without_fields fields h) ≡ vary (without_fields fields h')
unfolding without_fields
vary-without_fields [] h h' same = same
vary-without_fields ((name, true) ∷ fields) h h' same =
    vary-without_fields fields _ _ (vary-del h h' name same)
vary-without_fields ((name, false) ∷ fields) h h' same = vary-without_fields fields h h' same

vary-response_header :
    (dates : Dates) (now : ℤ) (no_cache : List (String × Bool)) (b : String) (h : Header)
    → vary (response_header dates now no_cache b h) ≡ vary (without_fields no_cache h)
unfolding response_header canonical_key
vary-response_header dates now no_cache b h =
    vary-set_if_missing "Content-Length" _ _ refl
    ∙ vary-set_if_missing "Date" _ (without_fields no_cache h) refl

header-change_header :
    (f : Header → Header) (w : CustomWriter)
    → header (change_header f w) ≡ (if is_detached w then Headers.empty else f w.rw.header)
unfolding header change_header is_detached
header-change_header f w = ground arith

header_if : (w : CustomWriter) → header w ≡ (if is_detached w then Headers.empty else w.rw.header)
unfolding header
header_if w = refl

-- Store notes the duration in a header of the response, which leaves Vary as it is.
vary-noted :
    (ttl : String) (w : CustomWriter)
    → vary (header (change_header (λ h. Headers.set h stored_ttl_header ttl) w)) ≡ vary (header w)
unfolding canonical_key
vary-noted ttl w =
    let noted = header-change_header (λ h. Headers.set h stored_ttl_header ttl) w in
    elim (Bool-cases (is_detached w)) [
      | inl e ↦ rw (noted, header_if w, e) refl
      | inr e ↦ rw (noted, header_if w, e) (vary-set w.rw.header stored_ttl_header ttl refl)
    ]

-- The header Vary of a response, without the fields that no-cache names, has a "*".
abbrev pub IsStarred : List (String × Bool) → Header → Type 0
IsStarred no_cache h = Has "*" (header_all_comma_sep_values (without_fields no_cache h) "Vary")

listed-same :
    (h h' : Header)
    → vary h ≡ vary h'
    → header_all_comma_sep_values h "Vary" ≡ header_all_comma_sep_values h' "Vary"
unfolding header_all_comma_sep_values
listed-same h h' same = ap (λ vs. concat (map (λ v. map trim_space (split v ",")) vs)) same

-- Where Store finds no "*", the response has none.
pub not-IsStarred :
    (dates : Dates) (now : ℤ) (no_cache : List (String × Bool)) (b n : String) (h : Header)
    → (varied_header_all_comma_sep_values
        (Headers.set (response_header dates now no_cache b h) stored_length_header n)).1
      ≡ false
    → ¬ IsStarred no_cache h
unfolding canonical_key
not-IsStarred dates now no_cache b n h plain starred =
    let noted = Headers.set (response_header dates now no_cache b h) stored_length_header n in
    let same : vary noted ≡ vary (without_fields no_cache h) =
      vary-set (response_header dates now no_cache b h) stored_length_header n refl
      ∙ vary-response_header dates now no_cache b h in
    let listed : Has "*" (header_all_comma_sep_values noted "Vary") =
      rw (listed-same noted (without_fields no_cache h) same) starred in
    absurd (cc ((varied_star_iff noted).1 listed, plain))

pub not-IsStarred-noted :
    (no_cache : List (String × Bool)) (ttl : String) (w : CustomWriter)
    → ¬ IsStarred no_cache (header (change_header (λ h. Headers.set h stored_ttl_header ttl) w))
    → ¬ IsStarred no_cache (header w)
not-IsStarred-noted no_cache ttl w none_ starred =
    let noted = header (change_header (λ h. Headers.set h stored_ttl_header ttl) w) in
    none_ (
      rw
        (listed-same (without_fields no_cache noted) (without_fields no_cache (header w))
          (vary-without_fields no_cache noted (header w) (vary-noted ttl w)))
        starred)
