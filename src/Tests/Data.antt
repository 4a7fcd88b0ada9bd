-- ===== src/Tests/Data.antt =====
-- The data of the tests: a clock that stands still, requests, and storages in memory.
use souin.Prelude.{true, false, none, some, [], ◌∷◌, ◌==◌, if◌then◌else◌}
use souin.Prelude.Int.{pos, negsuc}
use souin.Clock.{Dates}
use souin.Http.{Request, background}
use souin.Storage.{Storer, Revalidator, one_year_duration}
use souin.Storage.Default.{Default, Library, item, bytes, default_storer}
use souin.Surrogate.{souin_provider}
use souin.Surrogate.Base.{BaseStorage}
use souin.Rfc.{RequestDirectives, ResponseDirectives, CacheControl}

-- One date is known, an hour after the start of the clock.
abbrev pub dates : Dates
dates = record {
  parse_time = λ t. if t == "" then none else some (pos 3_600_000_000_000);
  parse_rfc1123 = λ t. if t == "" then none else some (pos 3_600_000_000_000);
  format_time = λ _. "Thu, 01 Jan 1970 01:00:00 GMT";
  format_rfc1123 = λ _. "Thu, 01 Jan 1970 01:00:00 GMT";
  parse_duration = λ t. if t == "" then none else some (pos 60_000_000_000);
  duration_string = λ _. "1m0s";
}

abbrev pub request : Request
request = record {
  method = "GET";
  request_uri = "/page";
  host = "example.com";
  path = "/page";
  raw_query = "";
  tls = true;
  header = ("Accept-Encoding", "gzip" ∷ []) ∷ [];
  body = none;
  context = background;
}

abbrev pub no_directives : ResponseDirectives
no_directives = record {
  must_revalidate = false;
  no_cache = [];
  no_cache_present = false;
  no_store = false;
  private_present = false;
  max_age = negsuc 0;
  s_max_age = negsuc 0;
  stale_if_error = negsuc 0;
  stale_while_revalidate = negsuc 0;
}

abbrev pub any_request : RequestDirectives
any_request = record {
  max_age = negsuc 0;
  max_stale = negsuc 0;
  max_stale_set = false;
  min_fresh = negsuc 0;
  no_cache = false;
  no_store = false;
  only_if_cached = false;
  stale_if_error = negsuc 0;
}

-- A parser that knows one response directive.
abbrev pub control : CacheControl
control = record {
  parse_request = λ _. some any_request;
  parse_response = λ t.
      some (if t == "max-age=60" then record no_directives { max_age = pos 60 } else no_directives);
}

abbrev pub validator : Revalidator
validator = record {
  matched = false;
  if_none_match_present = false;
  if_modified_since_present = false;
  if_unmodified_since_present = false;
  need_revalidation = false;
  not_modified = false;
  if_modified_since = none;
  if_unmodified_since = none;
  if_none_match = [];
  request_etags = [];
  response_etag = "";
}

-- A library that stores values as they are and matches texts that are equal.
abbrev pub library : Library
library = record {
  decode_mapping = λ _. some [];
  mapping_updater = λ key old now fresh stale headers etag real. some key;
  mapping_election = λ get now b req v p. (record { fresh = none; stale = none; validator = v }, p);
  compress = λ v. some v;
  compiles = λ _. true;
  matches = λ pattern_ k. pattern_ == k;
}

-- A page, and the index of its key.
abbrev pub stored_page : Default
stored_page = record {
  m = ("IDX_page", bytes "index") ∷ ("page", item (pos 100) "body") ∷ [];
  stale = pos 0;
}

abbrev pub nothing_stored : Default
nothing_stored = record { m = []; stale = pos 0 }

abbrev pub storer : Storer Default
storer = default_storer library

abbrev pub no_tags : BaseStorage Default
no_tags = record {
  parent = souin_provider;
  storage = nothing_stored;
  dynamic = true;
  keep_stale = false;
  duration = one_year_duration;
}
