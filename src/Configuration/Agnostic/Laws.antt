-- ===== src/Configuration/Agnostic/Laws.antt =====
-- What the order of the keys, and the block of a URL, do to the result of the agnostic parser.
use mathlib.Core.List.{Nodup, Permᴰ}
use souin.Prelude.{String, ◌≡◌, refl, sym, ◌∙◌, Option, none, some, [], >>=-eq-some, ap, arith}
use mathlib.Core.Path.{subst}
use mathlib.Core.Option.{some-injective}
use souin.Prelude.Int.{ℤ}
use souin.Entries.{Entries, load, store, load-store}
use souin.Configuration.{Url}
use souin.Configuration.Dynamic.{
  Value, Fields, entries, as_text, range_entries_inv, as_object, range_entries,
}
use souin.Configuration.Setting.{Setting, key_of}
use souin.Configuration.Order.{
  keys, IsFor, IsFor-if, IsFor-setting, range_default_cache-Permᴰ, IsKeyed,
}
use souin.Configuration.Agnostic.{duration_setting}
use souin.Configuration.Agnostic.Parser.{
  default_cache_setting, parse_default_cache, url_entry, urls_entry, parse_urls,
}

module _ (parse_duration : String → Option ℤ) where
  duration_IsFor :
      (set : ℤ → Setting) (name : String) (v : Value)
      → ((d : ℤ) → key_of (set d) ≡ name)
      → IsFor name (duration_setting parse_duration set v)
  unfolding duration_setting
  duration_IsFor set name v h s e =
      let (t, _, parsed) = >>=-eq-some (as_text v) _ e in by_duration (parse_duration t) parsed
    where
      by_duration :
          (o : Option ℤ)
          → (elim o as (λ _. Option (Option Setting)) [
            | none ↦ some none
            | some d ↦ some (some (set d))
          ])
            ≡ some (some s)
          → key_of s ≡ name
      by_duration none same = absurd (cc)
      by_duration (some d) same =
          ap key_of (sym (some-injective _ _ (some-injective _ _ same))) ∙ h d

  default_cache_setting-IsKeyed : IsKeyed (default_cache_setting parse_duration)
  unfolding default_cache_setting key_of
  default_cache_setting-IsKeyed k v =
      (IsFor-if k "allowed_http_verbs" _ _
        (IsFor-setting Setting.allowed_http_verbs "allowed_http_verbs" _ (λ _. refl))
        (IsFor-if k "allowed_additional_status_codes" _ _
          (IsFor-setting Setting.allowed_additional_status_codes "allowed_additional_status_codes" _
            (λ _. refl))
          (IsFor-if k "badger" _ _ (IsFor-setting Setting.badger "badger" _ (λ _. refl)) (
            IsFor-if k "cache_name" _ _
              (IsFor-setting Setting.cache_name "cache_name" _ (λ _. refl))
              (IsFor-if k "cdn" _ _ (IsFor-setting Setting.cdn "cdn" _ (λ _. refl)) (
                IsFor-if k "etcd" _ _ (IsFor-setting Setting.etcd "etcd" _ (λ _. refl)) (
                  IsFor-if k "headers" _ _ (IsFor-setting Setting.headers "headers" _ (λ _. refl)) (
                    IsFor-if k "mapping_eviction_interval" _ _
                      (duration_IsFor Setting.mapping_eviction_interval "mapping_eviction_interval"
                        v (λ _. refl))
                      (IsFor-if k "mode" _ _ (IsFor-setting Setting.mode "mode" _ (λ _. refl)) (
                        IsFor-if k "nats" _ _ (IsFor-setting Setting.nats "nats" _ (λ _. refl)) (
                          IsFor-if k "nuts" _ _ (IsFor-setting Setting.nuts "nuts" _ (λ _. refl)) (
                            IsFor-if k "otter" _ _
                              (IsFor-setting Setting.otter "otter" _ (λ _. refl))
                              (IsFor-if k "olric" _ _
                                (IsFor-setting Setting.olric "olric" _ (λ _. refl))
                                (IsFor-if k "redis" _ _
                                  (IsFor-setting Setting.redis "redis" _ (λ _. refl))
                                  (IsFor-if k "regex" _ _
                                    (IsFor-setting Setting.regex "regex" _ (λ _. refl))
                                    (IsFor-if k "simplefs" _ _
                                      (IsFor-setting Setting.simplefs "simplefs" _ (λ _. refl))
                                      (IsFor-if k "timeout" _ _
                                        (IsFor-setting Setting.timeout "timeout" _ (λ _. refl))
                                        (IsFor-if k "ttl" _ _
                                          (duration_IsFor Setting.ttl "ttl" v (λ _. refl))
                                          (IsFor-if k "stale" _ _
                                            (duration_IsFor Setting.stale "stale" v (λ _. refl))
                                            (IsFor-if k "storers" _ _
                                              (IsFor-setting Setting.storers "storers" _
                                                (λ _. refl))
                                              (IsFor-if k "default_cache_control" _ _
                                                (IsFor-setting Setting.default_cache_control
                                                  "default_cache_control" _ (λ _. refl))
                                                (IsFor-if k "max_cacheable_body_bytes" _ _
                                                  (IsFor-setting Setting.max_body_bytes
                                                    "max_cacheable_body_bytes" _ (λ _. refl))
                                                  (λ s e. absurd (cc))))))))))))))))))))))))

  -- parseDefaultCache returns the same configuration, or panics, whichever order Go ranges over the
  -- keys of its map in; the blocks below a key keep their order.
  pub parse_default_cache-perm :
      {m m' : Entries Value}
      → Permᴰ m m'
      → Nodup (keys m)
      → parse_default_cache parse_duration m ≡ parse_default_cache parse_duration m'
  unfolding parse_default_cache
  parse_default_cache-perm p h =
      range_default_cache-Permᴰ (default_cache_setting parse_duration) default_cache_setting-IsKeyed
        p h _

  -- The round of a URL whose block is a map.
  url_entry-headers :
      (m : Fields) (k : String) (v : Value) (u u' : Url)
      → u.headers ≡ []
      → url_entry parse_duration (Value.object m) k v u ≡ some u'
      → u'.headers ≡ []
  unfolding url_entry
  url_entry-headers m k v u u' h e = ground arith

  abbrev NoHeaders : Entries Url → Type 0
  NoHeaders urls = (k : String) (u : Url) → load k urls ≡ some u → u.headers ≡ []

  store-NoHeaders :
      (k : String) (u : Url) (urls : Entries Url)
      → u.headers ≡ []
      → NoHeaders urls
      → NoHeaders (store k u urls)
  store-NoHeaders k u urls h hs j w e = ground (arith, load-store k j u urls, hs j w)

  urls_entry-NoHeaders :
      (k : String) (v : Value) (urls urls' : Entries Url)
      → NoHeaders urls
      → urls_entry parse_duration k v urls ≡ some urls'
      → NoHeaders urls'
  unfolding urls_entry as_object
  urls_entry-NoHeaders k (Value.object m) urls urls' h e =
      let (u, parsed, stored) =
        >>=-eq-some (range_entries (url_entry parse_duration (Value.object m)) (entries m) _) _ e in
      subst NoHeaders (some-injective _ _ stored) (
        store-NoHeaders k u urls
          (range_entries_inv (λ (u : Url). u.headers ≡ [])
            (url_entry parse_duration (Value.object m)) (url_entry-headers m) (entries m) _ u refl
            parsed)
          h)
  urls_entry-NoHeaders k Value.nil urls urls' h e = absurd (cc)
  urls_entry-NoHeaders k v urls urls' h e = absurd (cc)

  -- parseURLs drops the headers of every URL, whatever its block says.
  pub parse_urls-headers :
      (m : Entries Value) (urls : Entries Url)
      → parse_urls parse_duration m ≡ some urls
      → (k : String) (u : Url) → load k urls ≡ some u
      → u.headers ≡ []
  unfolding parse_urls load
  parse_urls-headers m urls e =
      range_entries_inv NoHeaders (urls_entry parse_duration) urls_entry-NoHeaders m [] urls
        (λ k u h. absurd (cc)) e
