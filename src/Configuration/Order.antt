-- ===== src/Configuration/Order.antt =====
-- The loops over the keys of a configuration: Go ranges over a map in any order.

use mathlib.Core.List.Perm
use mathlib.Core.List.Permᴰ
use mathlib.Core.List.{Nodup, Pairwise, Permᴰ, map, mem-cons_self}
use souin.Prelude.{
  String, ◌≡◌, ◌≢◌, refl, ap, sym, ◌∙◌, Option, none, some, List, ◌∷◌, ◌>>=◌, >>=_assoc, ◌==◌,
  eq_iff, Bool, true, false, if◌then◌else◌,
}
use mathlib.Core.Path.{fun_ext}
use mathlib.Core.Option.{some-injective}
use souin.Entries.{Entries}
use souin.Configuration.{DefaultCache}
use souin.Configuration.Dynamic.{range_entries}
use souin.Configuration.Setting.{Setting, put, key_of, put_option, set_default_cache, setting_of}

abbrev pub keys : {V : Type 0} → Entries V → List String
keys = map (λ e. e.0)

module _ {V R : Type 0} (body : String → V → R → Option R) where
  -- Rounds for different keys can be exchanged.
  abbrev pub Commutes : Type 0
  Commutes =
      (k k' : String) (v v' : V) (r : R)
      → k ≢ k'
      → (body k v r >>= body k' v') ≡ (body k' v' r >>= body k v)

  Nodup-Permᴰ : (m m' : Entries V) → Permᴰ m m' → Nodup (keys m) → Nodup (keys m')
  Nodup-Permᴰ m m' p h = Perm.nodup ∣ Permᴰ.map (λ (e : String × V). e.0) p ∣₁ h

  head_swap :
      Commutes
      → (a b : String × V) (m : Entries V) (r : R) → a.0 ≢ b.0
      → range_entries body (a ∷ b ∷ m) r ≡ range_entries body (b ∷ a ∷ m) r
  unfolding range_entries
  head_swap c (k, v) (k', v') m r h =
      sym (>>=_assoc (body k v r) (body k' v') (range_entries body m))
      ∙ ap (λ o. o >>= range_entries body m) (c k k' v v' r h)
      ∙ >>=_assoc (body k' v' r) (body k v) (range_entries body m)

  range_entries-Permᴰ :
      Commutes
      → {m m' : Entries V} → Permᴰ m m'
      → Nodup (keys m)
      → (r : R) → range_entries body m r ≡ range_entries body m' r
  unfolding range_entries
  range_entries-Permᴰ c Permᴰ.nil h r = refl
  range_entries-Permᴰ c (Permᴰ.cons {a = a} {b = b} {l₁ = l} {l₂ = l'} e d) (Pairwise.cons _ t) r =
      ap (λ (x : String × V). body x.0 x.1 r >>= range_entries body l) e
      ∙ ap (λ (f : R → Option R). body b.0 b.1 r >>= f) (fun_ext (λ x. range_entries-Permᴰ c d t x))
  range_entries-Permᴰ c (Permᴰ.swap {a = a} {b = b} {a' = a'} {l = l} e e') (Pairwise.cons h _) r =
      head_swap c a b l r (h b.0 mem-cons_self)
      ∙ ap (λ (x : String × V). range_entries body (x ∷ a ∷ l) r) e'
      ∙ ap (λ (x : String × V). range_entries body (a' ∷ x ∷ l) r) e
  range_entries-Permᴰ c (Permᴰ.trans {l₁ = l} {l₂ = l'} p q) h r =
      range_entries-Permᴰ c p h r ∙ range_entries-Permᴰ c q (Nodup-Permᴰ l l' p h) r

-- Settings of different keys set different fields, or the same value.
put_comm :
    (s t : Setting) (dc : DefaultCache) → key_of s ≢ key_of t → put t (put s dc) ≡ put s (put t dc)
unfolding put key_of
put_comm (Setting.allowed_http_verbs x) (Setting.allowed_http_verbs y) dc h = absurd (h refl)
put_comm (Setting.allowed_additional_status_codes x) (Setting.allowed_additional_status_codes y) dc
      h =
    absurd (h refl)
put_comm (Setting.badger x) (Setting.badger y) dc h = absurd (h refl)
put_comm (Setting.cache_name x) (Setting.cache_name y) dc h = absurd (h refl)
put_comm (Setting.cdn x) (Setting.cdn y) dc h = absurd (h refl)
put_comm (Setting.default_cache_control x) (Setting.default_cache_control y) dc h = absurd (h refl)
put_comm (Setting.etcd x) (Setting.etcd y) dc h = absurd (h refl)
put_comm (Setting.headers x) (Setting.headers y) dc h = absurd (h refl)
put_comm (Setting.key x) (Setting.key y) dc h = absurd (h refl)
put_comm (Setting.mapping_eviction_interval x) (Setting.mapping_eviction_interval y) dc h =
    absurd (h refl)
put_comm (Setting.max_body_bytes x) (Setting.max_body_bytes y) dc h = absurd (h refl)
put_comm (Setting.mode x) (Setting.mode y) dc h = absurd (h refl)
put_comm (Setting.nats x) (Setting.nats y) dc h = absurd (h refl)
put_comm (Setting.nuts x) (Setting.nuts y) dc h = absurd (h refl)
put_comm (Setting.olric x) (Setting.olric y) dc h = absurd (h refl)
put_comm (Setting.otter x) (Setting.otter y) dc h = absurd (h refl)
put_comm (Setting.redis x) (Setting.redis y) dc h = absurd (h refl)
put_comm (Setting.regex x) (Setting.regex y) dc h = absurd (h refl)
put_comm (Setting.simplefs x) (Setting.simplefs y) dc h = absurd (h refl)
put_comm (Setting.stale x) (Setting.stale y) dc h = absurd (h refl)
put_comm (Setting.storers x) (Setting.storers y) dc h = absurd (h refl)
put_comm (Setting.timeout x) (Setting.timeout y) dc h = absurd (h refl)
put_comm (Setting.ttl x) (Setting.ttl y) dc h = absurd (h refl)
put_comm s t dc h = refl

put_option_comm :
    (o o' : Option Setting) (dc : DefaultCache)
    → ((s t : Setting) → o ≡ some s → o' ≡ some t → key_of s ≢ key_of t)
    → put_option o' (put_option o dc) ≡ put_option o (put_option o' dc)
unfolding put_option
put_option_comm none o' dc h = refl
put_option_comm (some s) none dc h = refl
put_option_comm (some s) (some t) dc h = put_comm s t dc (h s t refl refl)

module _ {V : Type 0} (setting : String → V → Option (Option Setting)) where
  -- A key sets what belongs to it.
  abbrev pub IsKeyed : Type 0
  IsKeyed = (k : String) (v : V) (s : Setting) → setting k v ≡ some (some s) → key_of s ≡ k

  rounds_comm :
      (o o' : Option (Option Setting)) (dc : DefaultCache)
      → ((s t : Setting) → o ≡ some (some s) → o' ≡ some (some t) → key_of s ≢ key_of t)
      → ((o >>= λ s. some (put_option s dc)) >>= λ dc'. o' >>= λ t. some (put_option t dc'))
        ≡ ((o' >>= λ t. some (put_option t dc)) >>= λ dc'. o >>= λ s. some (put_option s dc'))
  rounds_comm none none dc h = refl
  rounds_comm none (some t) dc h = refl
  rounds_comm (some s) none dc h = refl
  rounds_comm (some s) (some t) dc h =
      ap some (put_option_comm s t dc (λ a b e e'. h a b (ap some e) (ap some e')))

  set_default_cache-Commutes : IsKeyed → Commutes (set_default_cache setting)
  unfolding set_default_cache
  set_default_cache-Commutes keyed k k' v v' dc h =
      rounds_comm (setting k v) (setting k' v') dc
        (λ s t e e' same. h (sym (keyed k v s e) ∙ same ∙ keyed k' v' t e'))

  -- The result does not depend on the order in which the loop meets the keys.
  pub range_default_cache-Permᴰ :
      IsKeyed
      → {m m' : Entries V} → Permᴰ m m'
      → Nodup (keys m)
      → (dc : DefaultCache)
      → range_entries (set_default_cache setting) m dc
        ≡ range_entries (set_default_cache setting) m' dc
  range_default_cache-Permᴰ keyed p h dc =
      range_entries-Permᴰ (set_default_cache setting) (set_default_cache-Commutes keyed) p h dc

-- What a key sets, if it sets something, belongs to the key.
abbrev pub IsFor : String → Option (Option Setting) → Type 0
IsFor k o = (s : Setting) → o ≡ some (some s) → key_of s ≡ k

IsFor-choose :
    (b : Bool) (k name : String) (x y : Option (Option Setting))
    → (b ≡ true → k ≡ name)
    → IsFor name x
    → IsFor k y
    → IsFor k (if b then x else y)
IsFor-choose true k name x y same hx hy s e = hx s e ∙ sym (same refl)
IsFor-choose false k name x y same hx hy s e = hy s e

pub IsFor-if :
    (k name : String) (x y : Option (Option Setting))
    → IsFor name x
    → IsFor k y
    → IsFor k (if k == name then x else y)
IsFor-if k name x y = IsFor-choose (k == name) k name x y (eq_iff k name).0

pub IsFor-setting :
    {A : Type 0} (set : A → Setting) (name : String) (o : Option A)
    → ((a : A) → key_of (set a) ≡ name)
    → IsFor name (setting_of set o)
unfolding setting_of
IsFor-setting set name none h s e = absurd (cc)
IsFor-setting set name (some a) h s e =
    ap key_of (sym (some-injective _ _ (some-injective _ _ e))) ∙ h a

pub IsFor-nothing : (k : String) → IsFor k (some none)
IsFor-nothing k s e = absurd (cc)

pub IsFor-some : (k : String) (s : Setting) → key_of s ≡ k → IsFor k (some (some s))
IsFor-some k s h t e = ap key_of (sym (some-injective _ _ (some-injective _ _ e))) ∙ h
