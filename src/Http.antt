-- ===== src/Http.antt =====
-- The types of net/http that the program uses: headers, requests, responses and response writers.
pub mod Headers
use souin.Prelude.{ℕ, String, Bool, false, Option, none, some, List, [], is_some, if◌then◌else◌}
use souin.Prelude.Int.{ℤ, pos}
use souin.Text.{◌<>◌}
use souin.Http.Headers.{Header}

-- The result of rq.Context().Err() that is not nil.
pub data ContextError : Type 0 where
  deadline_exceeded canceled : ContextError

-- ModeContext of context/mode.go
pub record ModeContext : Type 0 where
  pub strict : Bool
  pub bypass_request : Bool
  pub bypass_response : Bool

-- The values that context/ stores in a request's context, one field for each key. Where the code
-- tests that a value is there, the field is an option.
pub record ContextValues : Type 0 where
  pub cache_name : String
  pub now : ℤ
  pub supported_method : Bool
  pub mode : ModeContext
  pub timeout_cache : ℤ
  pub deadline : Option ℤ
  pub graph_ql : Bool
  pub hash_body : String
  pub is_mutation_request : Bool
  pub key : Option String
  pub disable_vary : Option Bool
  pub hashed : Bool
  pub ignored_headers : List String
  pub displayable_key : Option Bool
  pub error : Option ContextError

abbrev pub background : ContextValues
background = record {
  cache_name = "";
  now = pos 0;
  supported_method = false;
  mode = record { strict = false; bypass_request = false; bypass_response = false };
  timeout_cache = pos 0;
  deadline = none;
  graph_ql = false;
  hash_body = "";
  is_mutation_request = false;
  key = none;
  disable_vary = none;
  hashed = false;
  ignored_headers = [];
  displayable_key = none;
  error = none;
}

pub record Request : Type 0 where
  pub method : String
  pub request_uri : String
  pub host : String
  pub path : String
  pub raw_query : String
  pub tls : Bool
  pub header : Header
  pub body : Option String
  pub context : ContextValues

pub record Response : Type 0 where
  pub status_code : ℕ
  pub header : Header
  pub body : String

-- An http.ResponseWriter: the header map, and what was sent. The first WriteHeader sends the code
-- and the headers of that moment; a later one is ignored.
pub record ResponseWriter : Type 0 where
  pub header : Header
  pub sent : Option (ℕ × Header)
  pub body : String

unfoldable pub write_header : ℕ → ResponseWriter → ResponseWriter
write_header code rw = if is_some rw.sent then rw else record rw { sent = some (code, rw.header) }

-- The first Write sends the code 200 if none was sent.
unfoldable pub write : String → ResponseWriter → ResponseWriter
unfolding write_header
write b rw = let rw' = write_header 200 rw in record rw' { body = rw'.body <> b }
