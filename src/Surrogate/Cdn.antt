-- ===== src/Surrogate/Cdn.antt =====
-- pkg/surrogate/providers/akamai.go, cloudflare.go and fastly.go: what the providers of a CDN do
-- around baseStorage. The requests that they send are values here; their answers are not read.
pub mod Batches
use souin.Prelude.{
  ℕ, zero, suc, ◌+◌, ◌-◌, String, Bool, List, [], ◌∷◌, ◌++◌, ◌==◌, map, length, take, drop, ltb,
  if◌then◌else◌,
}
use souin.Prelude.Int.{ℤ}
use souin.Text.{◌<>◌, join}
use souin.Http.Headers
use souin.Http.Headers.{Header}
use souin.Storage.{Storer}
use souin.Surrogate.{
  Provider, akamai, cloudflare, fastly, souin_provider, header_separator, parse_headers,
}
use souin.Surrogate.Base.{BaseStorage, store, purge}

-- What the generate functions keep of the CDN's configuration.
pub record Cdn : Type 0 where
  pub hostname : String
  pub network : String
  pub strategy : String
  pub api_key : String
  pub email : String
  pub zone_id : String
  pub service_id : String

-- A request to a CDN: its URL, its headers and the tags of its body.
pub record CdnRequest : Type 0 where
  pub url : String
  pub header : Header
  pub tags : List String

-- a.url of generateAkamaiInstance
unfoldable pub akamai_url : Cdn → String
akamai_url cdn =
    let strategy = if cdn.strategy == "soft" then "invalidate" else "delete" in
    let url = "https://" <> (cdn.hostname <> ("/ccu/v3/" <> (strategy <> "/tag"))) in
    if cdn.network == "" then url else url <> ("/" <> cdn.network)

-- f.strategy of generateFastlyInstance
unfoldable pub fastly_strategy : Cdn → String
fastly_strategy cdn = if cdn.strategy == "soft" then "1" else "0"

-- The edit of the response's headers that Store leaves behind.
unfoldable pub stored_header : Provider → Header → Header
unfolding parse_headers header_separator join Headers.get Headers.set Headers.del
stored_header akamai h =
    let marked = Headers.set h "Edge-Cache-Tag" (Headers.get h "Surrogate-Key") in
    Headers.del (Headers.del marked "Surrogate-Key") "Surrogate-Control"
stored_header cloudflare h =
    let tags =
      join (parse_headers cloudflare (Headers.get h "Surrogate-Key"))
        (header_separator cloudflare) in
    Headers.del (Headers.del (Headers.set h "Cache-Tag" tags) "Surrogate-Key") "Surrogate-Control"
stored_header fastly h = h
stored_header souin_provider h = h

-- The tags arr[i:j] of one batch.
abbrev pub slice : List String → ℕ → ℕ → List String
slice arr i j = take (j - i) (drop i arr)

abbrev pub max_per_batch : ℕ
max_per_batch = 30

-- The loop of processBatches, for at most `fuel` rounds.
unfoldable pub batches_from : ℕ → List String → ℕ → List (List String)
batches_from zero arr i = []
batches_from (suc fuel) arr i =
    let j = i + max_per_batch in
    let end = if ltb (length arr) j then length arr else j in
    let later = batches_from fuel arr (i + max_per_batch) in
    if ltb i (length arr) then slice arr i end ∷ later else []

unfoldable pub process_batches : List String → List (List String)
unfolding batches_from
process_batches arr = batches_from (length arr) arr 0

-- The requests that Purge sends for the surrogate keys.
unfoldable pub purge_requests : Provider → Cdn → List String → List CdnRequest
unfolding akamai_url fastly_strategy process_batches Headers.set
purge_requests akamai cdn keys =
    record {
      url = akamai_url cdn;
      header =
          Headers.set (Headers.set Headers.empty "Accept" "application/json") "Content-Type"
            "application/json";
      tags = keys;
    }
    ∷ []
purge_requests cloudflare cdn keys =
    map
      (λ batch. record {
        url = "https://api.cloudflare.com/client/v4/zones/" <> (cdn.zone_id <> "/purge");
        header =
            Headers.set
              (Headers.set (Headers.set Headers.empty "X-Auth-Email" cdn.email) "X-Auth-Key"
                cdn.api_key)
              "Content-Type" "application/json";
        tags = batch;
      })
      (process_batches keys)
purge_requests fastly cdn keys =
    map
      (λ key. record {
        url = "/service/" <> (cdn.service_id <> ("/purge/" <> key));
        header =
            Headers.set
              (Headers.set (Headers.set Headers.empty "Fastly-Soft-Purge" (fastly_strategy cdn))
                "Fastly-Key" cdn.api_key)
              "Accept" "application/json";
        tags = [];
      })
      keys
purge_requests souin_provider cdn keys = []

module _ {S : Type 0} (st : Storer S) where
  -- Store of a provider: the new headers of the response, and the state.
  unfoldable pub provider_store :
      ℤ → Header → String → String → BaseStorage S → Header × BaseStorage S
  unfolding stored_header store
  provider_store now h cache_key uri s = (stored_header s.parent h, store st now h cache_key uri s)

  -- Purge of a provider: what baseStorage returns, and the requests.
  unfoldable pub provider_purge :
      ℤ → Cdn → Header → BaseStorage S → List String × List String × BaseStorage S × List CdnRequest
  unfolding purge_requests purge
  provider_purge now cdn h s =
      let (cache_keys, surrogate_keys, s') = purge st now h s in
      (cache_keys, surrogate_keys, s', purge_requests s.parent cdn surrogate_keys)
