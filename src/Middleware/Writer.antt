-- ===== src/Middleware/Writer.antt =====
-- pkg/middleware/writer.go: the writer that keeps a response back until it is sent.
pub mod Laws
use souin.Prelude.{
  ℕ, String, Bool, true, false, ◌||◌, ◌&&◌, not, Option, none, some, List, [], ◌∷◌, ◌==◌, is_some,
  eqb, if◌then◌else◌,
}
use souin.Prelude.Int.{ℤ, pos}
use souin.Text.{◌<>◌, count}
use souin.Text.Numbers.{itoa}
use souin.Clock.{Dates}
use souin.Http.{Request, ResponseWriter}
use souin.Http
use souin.Http.Headers
use souin.Http.Headers.{Header}
use souin.Rfc.CacheStatus.{stored_ttl_header, stored_length_header}

-- http.ServeContent: the writer, the method and the header of the request, the time of the last
-- change, and the content.
abbrev pub ServeContent : Type 0
ServeContent = ResponseWriter → String → Header → Option ℤ → String → ResponseWriter

pub record CustomWriter : Type 0 where
  pub buf : String
  pub rw : ResponseWriter
  pub req : Request
  pub headers : Header
  pub status_code : ℕ
  pub headers_sent : Bool

unfoldable pub new_custom_writer : Request → ResponseWriter → String → CustomWriter
new_custom_writer req rw b = record {
  buf = b;
  rw = rw;
  req = req;
  headers = Headers.empty;
  status_code = 200;
  headers_sent = false;
}

-- Whether Header returns a new map, which nobody sends.
unfoldable pub is_detached : CustomWriter → Bool
is_detached w = w.headers_sent || is_some w.req.context.error

-- Header, for what is read of it.
unfoldable pub header : CustomWriter → Header
unfolding is_detached
header w = if is_detached w then Headers.empty else w.rw.header

-- Header, for what is changed in it: a change of a new map is lost.
unfoldable pub change_header : (Header → Header) → CustomWriter → CustomWriter
unfolding is_detached
change_header f w =
    if is_detached w then w else record w { rw = record w.rw { header = f w.rw.header } }

-- WriteHeader
unfoldable pub write_header : ℕ → CustomWriter → CustomWriter
write_header code w = if w.headers_sent then w else record w { status_code = code }

-- Write
unfoldable pub write : String → CustomWriter → CustomWriter
write b w = record w { buf = w.buf <> b }

-- What Send does before it tells a range request from the others: the stored length becomes the
-- Content-Length, and the two headers of the storage are removed.
unfoldable pub without_stored : Header → Header
without_stored h = Headers.del (Headers.del h stored_length_header) stored_ttl_header

-- The Content-Length is set if there is a length.
unfoldable pub with_length : String → Header → Header
with_length length h = if not (length == "") then Headers.set h "Content-Length" length else h

unfoldable pub prepare : CustomWriter → CustomWriter
unfolding header change_header
prepare w =
    let stored_length = Headers.get (header w) stored_length_header in
    let sized = change_header (with_length stored_length) w in change_header without_stored sized

-- The request that Send builds for ServeContent has these headers.
unfoldable pub range_headers : CustomWriter → Header
range_headers w =
    let h = Headers.put "Range" (Headers.get w.headers "Range" ∷ []) Headers.empty in
    let if_range = Headers.get w.req.header "If-Range" in
    if not (if_range == "") then Headers.set h "If-Range" if_range else h

unfoldable pub is_range_request : CustomWriter → Bool
is_range_request w =
    not (Headers.get w.headers "Range" == "") && (eqb w.status_code 200 && not w.headers_sent)

-- Send for a range request, after prepare.
unfoldable pub send_range : Dates → ServeContent → CustomWriter → CustomWriter
unfolding header change_header
send_range dates serve_content w =
    let ranged = change_header (λ h. Headers.set h "Accept-Ranges" "bytes") w in
    let modified = Headers.get (header ranged) "Last-Modified" in
    let modtime = if modified == "" then none else dates.parse_time modified in
    record ranged {
      buf = "";
      headers_sent = true;
      rw = serve_content ranged.rw w.req.method (range_headers w) modtime w.buf;
    }

-- Send for any other request, after prepare.
unfoldable pub send_whole : CustomWriter → CustomWriter
unfolding change_header
send_whole w =
    let length = if not (w.buf == "") then itoa (pos (count w.buf)) else "" in
    let sized = change_header (with_length length) w in
    let cleaned = change_header without_stored sized in
    let rw =
      if cleaned.headers_sent then cleaned.rw else Http.write_header w.status_code cleaned.rw in
    record cleaned { buf = ""; headers_sent = true; rw = Http.write w.buf rw }

-- Send
unfoldable pub send : Dates → ServeContent → CustomWriter → CustomWriter
send dates serve_content w =
    let w' = prepare w in
    if is_range_request w' then send_range dates serve_content w' else send_whole w'
