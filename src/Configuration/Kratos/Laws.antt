-- ===== src/Configuration/Kratos/Laws.antt =====
-- What becomes of the verbs and of nested blocks in the parser of kratos.
use mathlib.Core.Option.{some-injective}
use mathlib.Core.Path.{subst}
use souin.Prelude.{
  ℕ, zero, suc, ◌<◌, ◌≤◌, String, ◌≡◌, ◌≢◌, ◌↔◌, not, any, refl, ap, sym, ◌∙◌, Bool, true, false,
  Option, none, some, [], ◌∷◌, ◌++◌, ◌==◌, ◌>>=◌, >>=-eq-some, >>=-ne-none, All, Bool-cases,
  Option-cases, inl, inr, is_some, arith, if◌then◌else◌, or_else,
}
use souin.Prelude.Int.{ℤ, pos}
use souin.Entries.{Entries, load}
use souin.Configuration.{Url, DefaultCache, no_default_cache}
use souin.Configuration.Dynamic.{
  Value, fields_of, range_entries, range_entries_inv_on, range_entries-append,
  range_entries-none_iff,
}
use souin.Configuration.Setting.{Setting, key_of, put, put_option, set_default_cache}
use souin.Configuration.Order.{IsFor, IsFor-if, IsFor-setting, IsFor-nothing, IsFor-some, IsKeyed}
use souin.Configuration.Kratos.{
  KratosValue, Loaded, string_or_empty, map_or_empty, scalar, parse_recursively,
}
use souin.Configuration.Kratos.Parser.{
  duration_setting, regex_setting, max_body_setting, default_cache_setting, set_status_codes,
  default_cache_entry, parse_default_cache, url_of, urls_entry, parse_urls,
}

-- Only one key sets the verbs.
put-verbs :
    (s : Setting) (dc : DefaultCache)
    → key_of s ≢ "allowed_http_verbs"
    → (put s dc).allowed_http_verbs ≡ dc.allowed_http_verbs
unfolding put key_of
put-verbs (Setting.allowed_http_verbs x) dc h = absurd (h refl)
put-verbs s dc h = refl

module _ {V : Type 0} (kratos : KratosValue V) (parse_duration : String → Option ℤ) (fuel : ℕ) where
  duration_IsFor :
      (set : ℤ → Setting) (name : String) (v : V)
      → ((d : ℤ) → key_of (set d) ≡ name)
      → IsFor name (duration_setting kratos parse_duration fuel set v)
  unfolding duration_setting
  duration_IsFor set name v h = elim (Option-cases (kratos.string v)) [
    | inl e ↦ rw (e, duration_setting) (IsFor-nothing name)
    | inr (t, e) ↦
        rw (e, duration_setting) (IsFor-some name (set (or_else (parse_duration t) (pos 0))) (h _))
  ]

  regex_IsFor : (v : V) → IsFor "regex" (regex_setting kratos parse_duration fuel v)
  unfolding regex_setting key_of
  regex_IsFor v = elim (Option-cases (load "exclude" (map_or_empty kratos v))) [
    | inl e ↦ rw e (λ s same. absurd (cc))
    | inr (x, e) ↦ rw e (by_text (string_or_empty kratos x == "") (string_or_empty kratos x))
  ]
    where
      by_text :
          (b : Bool) (x : String)
          → IsFor "regex" (some (if b then none else some (Setting.regex x)))
      by_text true x = IsFor-nothing "regex"
      by_text false x = IsFor-some "regex" (Setting.regex x) refl

  max_body_IsFor :
      (v : V) → IsFor "max_cacheable_body_bytes" (max_body_setting kratos parse_duration fuel v)
  unfolding max_body_setting key_of
  max_body_IsFor v = by_type (kratos.load v)
    where
      by_type :
          (l : Loaded)
          → IsFor "max_cacheable_body_bytes" (elim l as (λ _. Option (Option Setting)) [
            | Loaded.uint64 n ↦ some (some (Setting.max_body_bytes n))
            | _ ↦ some none
          ])
      by_type (Loaded.uint64 n) =
          IsFor-some "max_cacheable_body_bytes" (Setting.max_body_bytes n) refl
      by_type Loaded.integer = IsFor-nothing "max_cacheable_body_bytes"
      by_type l = IsFor-nothing "max_cacheable_body_bytes"

  default_cache_setting-IsKeyed : IsKeyed (default_cache_setting kratos parse_duration fuel)
  unfolding default_cache_setting key_of
  default_cache_setting-IsKeyed k v =
      (IsFor-if k "allowed_http_verbs" _ _
        (IsFor-setting Setting.allowed_http_verbs "allowed_http_verbs" _ (λ _. refl))
        (IsFor-if k "badger" _ _ (IsFor-setting Setting.badger "badger" _ (λ _. refl)) (
          IsFor-if k "cache_name" _ _ (IsFor-setting Setting.cache_name "cache_name" _ (λ _. refl))
            (IsFor-if k "cdn" _ _ (IsFor-setting Setting.cdn "cdn" _ (λ _. refl)) (
              IsFor-if k "etcd" _ _ (IsFor-setting Setting.etcd "etcd" _ (λ _. refl)) (
                IsFor-if k "headers" _ _ (IsFor-setting Setting.headers "headers" _ (λ _. refl)) (
                  IsFor-if k "nats" _ _ (IsFor-setting Setting.nats "nats" _ (λ _. refl)) (
                    IsFor-if k "nuts" _ _ (IsFor-setting Setting.nuts "nuts" _ (λ _. refl)) (
                      IsFor-if k "otter" _ _ (IsFor-setting Setting.otter "otter" _ (λ _. refl)) (
                        IsFor-if k "olric" _ _ (IsFor-setting Setting.olric "olric" _ (λ _. refl)) (
                          IsFor-if k "redis" _ _ (IsFor-setting Setting.redis "redis" _ (λ _. refl))
                            (IsFor-if k "regex" _ _ (regex_IsFor v) (
                              IsFor-if k "simplefs" _ _
                                (IsFor-setting Setting.simplefs "simplefs" _ (λ _. refl))
                                (IsFor-if k "timeout" _ _
                                  (IsFor-setting Setting.timeout "timeout" _ (λ _. refl))
                                  (IsFor-if k "ttl" _ _
                                    (duration_IsFor Setting.ttl "ttl" v (λ _. refl))
                                    (IsFor-if k "stale" _ _
                                      (duration_IsFor Setting.stale "stale" v (λ _. refl))
                                      (IsFor-if k "storers" _ _
                                        (IsFor-setting Setting.storers "storers" _ (λ _. refl))
                                        (IsFor-if k "default_cache_control" _ _
                                          (IsFor-setting Setting.default_cache_control
                                            "default_cache_control" _ (λ _. refl))
                                          (IsFor-if k "max_cacheable_body_bytes" _ _
                                            (max_body_IsFor v)
                                            (λ s e. absurd (cc)))))))))))))))))))))

  abbrev NoVerbs : DefaultCache → Type 0
  NoVerbs dc = dc.allowed_http_verbs ≡ []

  set_default_cache-verbs :
      (k : String) (v : V) (dc dc' : DefaultCache)
      → k ≢ "allowed_http_verbs"
      → set_default_cache (default_cache_setting kratos parse_duration fuel) k v dc ≡ some dc'
      → dc'.allowed_http_verbs ≡ dc.allowed_http_verbs
  unfolding set_default_cache put_option
  set_default_cache-verbs k v dc dc' h e =
      let (o, set, same) = >>=-eq-some (default_cache_setting kratos parse_duration fuel k v) _ e in
      ap (λ (x : DefaultCache). x.allowed_http_verbs) (sym (some-injective _ _ same))
      ∙ by_option o set
    where
      by_option :
          (o : Option Setting)
          → default_cache_setting kratos parse_duration fuel k v ≡ some o
          → (put_option o dc).allowed_http_verbs ≡ dc.allowed_http_verbs
      by_option none set = refl
      by_option (some s) set =
          put-verbs s dc (λ same. h (sym (default_cache_setting-IsKeyed k v s set) ∙ same))

  default_cache_entry-NoVerbs :
      (k : String) (v : V) (dc dc' : DefaultCache)
      → k ≢ "allowed_http_verbs"
      → NoVerbs dc
      → default_cache_entry kratos parse_duration fuel k v dc ≡ some dc'
      → NoVerbs dc'
  unfolding default_cache_entry set_status_codes
  default_cache_entry-NoVerbs k v dc dc' h none_yet e =
      elim (Bool-cases (k == "allowed_additional_status_codes")) [
        | inl codes ↦ subst NoVerbs (some-injective _ _ (rw codes at e)) refl
        | inr other ↦ set_default_cache-verbs k v dc dc' h (rw other at e) ∙ none_yet
      ]

  -- In parseDefaultCache the key "allowed_additional_status_codes" empties the verbs: where Go meets
  -- it after "allowed_http_verbs", no verb is left.
  pub status_codes-NoVerbs :
      (m m' : Entries V) (v : V) (dc : DefaultCache)
      → All (λ e. e.0 ≢ "allowed_http_verbs") m'
      → parse_default_cache kratos parse_duration fuel
          (m ++ (("allowed_additional_status_codes", v) ∷ m'))
        ≡ some dc
      → dc.allowed_http_verbs ≡ []
  unfolding parse_default_cache range_entries default_cache_entry set_status_codes
  status_codes-NoVerbs m m' v dc h e =
      let body = default_cache_entry kratos parse_duration fuel in
      let codes : String × V = ("allowed_additional_status_codes", v) in
      let (before, _, after) =
        >>=-eq-some (range_entries body m no_default_cache) (range_entries body (codes ∷ m'))
          (sym (range_entries-append body m (codes ∷ m') no_default_cache) ∙ e) in
      range_entries_inv_on (λ k. k ≢ "allowed_http_verbs") NoVerbs body default_cache_entry-NoVerbs
        m' (set_status_codes kratos parse_duration fuel v before) dc h refl after

module _ {V : Type 0} (kratos : KratosValue V) (parse_duration : String → Option ℤ) (rank : V → ℕ)
    (deeper : (v : V) (m : Entries V)
      → kratos.map v ≡ some m
      → All (λ e. rank e.1 < rank v) m) where
  abbrev Below : ℕ → Entries V → Type 0
  Below n m = All (λ e. rank e.1 < n) m

  Below-weak : (a b : ℕ) → a ≤ b → (m : Entries V) → Below a m → Below b m
  Below-weak a b le [] h = tt
  Below-weak a b le (e ∷ m) (h, hs) = (omega arith, Below-weak a b le m hs)

  -- One entry, from what is left of the recursion.
  nested-ne-none :
      (parse : Entries V → Option (Entries Value)) (k : String) (v : V) (b : Option (Entries V))
      → ((m : Entries V) → b ≡ some m → parse m ≢ none)
      → elim b as (λ _. Option (Entries Value)) [
        | none ↦ some []
        | some block ↦ (parse block >>= λ fields. some ((k, Value.object (fields_of fields)) ∷ []))
      ]
        ≢ none
  nested-ne-none parse k v none h e = absurd (cc)
  nested-ne-none parse k v (some m) h e =
      >>=-ne-none (parse m) _ (h m refl) (λ fields same. absurd (cc)) e

  entry-ne-none :
      (k : String) (s : Option Value) (nested : Option (Entries Value))
      → nested ≢ none
      → elim s as (λ _. Option (Entries Value)) [ some x ↦ some ((k, x) ∷ []) | none ↦ nested ]
        ≢ none
  entry-ne-none k none nested h e = h e
  entry-ne-none k (some x) nested h e = absurd (cc)

  -- parseRecursively ends: with more fuel than the maps below are deep, it returns a map.
  pub parse_recursively-ne-none :
      (n : ℕ) (m : Entries V)
      → All (λ e. rank e.1 < n) m
      → parse_recursively kratos parse_duration (suc n) m ≢ none
  unfolding parse_recursively
  parse_recursively-ne-none n [] h e = absurd (cc)
  parse_recursively-ne-none zero ((k, v) ∷ m) (h, hs) e = elim h [ ]
  parse_recursively-ne-none (suc n) ((k, v) ∷ m) (h, hs) e =
      >>=-ne-none _ _
        (entry-ne-none k (scalar kratos parse_duration v) _ (
          nested-ne-none (parse_recursively kratos parse_duration (suc n)) k v (kratos.map v)
            (λ block same.
              parse_recursively-ne-none n block
                (Below-weak (rank v) n (omega arith) block (deeper v block same)))))
        (λ entry.
          >>=-ne-none _ _ (parse_recursively-ne-none (suc n) m hs) (λ rest same. absurd (cc)))
        e

module _ {V : Type 0} (kratos : KratosValue V) (parse_duration : String → Option ℤ) (fuel : ℕ) where
  abbrev pub lacks_ttl : V → Bool
  lacks_ttl v = not (is_some (load "ttl" (map_or_empty kratos v)))

  urls_entry-none_iff :
      (k : String) (v : V) (urls : Entries Url)
      → (urls_entry kratos parse_duration fuel k v urls ≡ none) ↔ (lacks_ttl v ≡ true)
  unfolding urls_entry url_of
  urls_entry-none_iff k v urls = elim (Option-cases (load "ttl" (map_or_empty kratos v))) [
    | inl e ↦ rw (e, urls_entry, url_of) (λ _. refl, λ _. refl)
    | inr (t, e) ↦ rw (e, urls_entry, url_of) (λ same. absurd (cc), λ same. absurd (cc))
  ]

  -- parseURLs panics exactly where one of the URLs has no "ttl".
  pub parse_urls-none_iff :
      (m : Entries V)
      → (parse_urls kratos parse_duration fuel m ≡ none) ↔ (any (λ e. lacks_ttl e.1) m ≡ true)
  unfolding parse_urls
  parse_urls-none_iff m =
      range_entries-none_iff (λ k v. lacks_ttl v) (urls_entry kratos parse_duration fuel)
        urls_entry-none_iff m []
