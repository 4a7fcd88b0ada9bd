-- ===== src/Middleware/Writer/Laws.antt =====
-- What a sent response has.
use text.Mathlib.TextLemmas.{append-nil}
use souin.Prelude.{
  String, ◌≡◌, refl, ◌∙◌, inl, inr, Bool, true, false, ◌&&◌, not, none, some, ◌==◌, is_some, eqb,
  arith, if◌then◌else◌, Bool-cases,
}
use souin.Prelude.Int.{pos}
use souin.Text.{◌<>◌, count}
use souin.Text.Numbers.{itoa}
use souin.Text.Case.{canonical_key}
use souin.Clock.{Dates}
use souin.Http
use souin.Http.Headers
use souin.Http.Headers.{Header, get-set, get-del}
use souin.Rfc.CacheStatus.{stored_ttl_header, stored_length_header}
use souin.Middleware.Writer.{
  ServeContent, CustomWriter, with_length, is_detached, header, change_header, without_stored,
  prepare, is_range_request, send_whole, send,
}

-- The first text, or the other one if it is empty.
abbrev pub or_text : String → String → String
or_text a b = if not (a == "") then a else b

get-without_stored :
    (h : Header) (name : String)
    → Headers.get (without_stored h) name ≡ (
        if canonical_key stored_ttl_header == canonical_key name
        then ""
        else if canonical_key stored_length_header == canonical_key name
        then ""
        else Headers.get h name)
unfolding without_stored
get-without_stored h name =
    rw
      (
        get-del (Headers.del h stored_length_header) stored_ttl_header name,
        get-del h stored_length_header name,
      )
      refl

-- The header after prepare, and after send.
abbrev prepared : CustomWriter → Header
prepared w = without_stored (with_length (Headers.get w.rw.header stored_length_header) w.rw.header)

abbrev body_length : String → String
body_length b = if not (b == "") then itoa (pos (count b)) else ""

abbrev pub final_header : CustomWriter → Header
final_header w = without_stored (with_length (body_length w.buf) (prepared w))

not_sent : (w : CustomWriter) → is_detached w ≡ false → w.headers_sent ≡ false
unfolding is_detached
not_sent w live = ground arith

-- A writer with another header.
abbrev with_header : Header → CustomWriter → CustomWriter
with_header h w = record w { rw = record w.rw { header = h } }

is_detached-with_header :
    (h : Header) (w : CustomWriter) → is_detached (with_header h w) ≡ is_detached w
unfolding is_detached
is_detached-with_header h w = refl

header_lem : (w : CustomWriter) → is_detached w ≡ false → header w ≡ w.rw.header
unfolding header
header_lem w live = rw live refl

change_header_lem :
    (f : Header → Header) (w : CustomWriter)
    → is_detached w ≡ false
    → change_header f w ≡ with_header (f w.rw.header) w
unfolding change_header
change_header_lem f w live = rw live refl

prepare_lem : (w : CustomWriter) → is_detached w ≡ false → prepare w ≡ with_header (prepared w) w
unfolding prepare
prepare_lem w live =
    let sized = with_length (Headers.get w.rw.header stored_length_header) in
    rw (header_lem w live, change_header_lem sized w live)
      (change_header_lem without_stored (with_header (sized w.rw.header) w)
        (is_detached-with_header (sized w.rw.header) w ∙ live))

send_whole_lem :
    (w : CustomWriter)
    → is_detached w ≡ false
    → w.rw.sent ≡ none
    → (send_whole w).rw ≡ (
        let h = without_stored (with_length (body_length w.buf) w.rw.header) in
        record { header = h; sent = some (w.status_code, h); body = w.rw.body <> w.buf })
unfolding send_whole Http.write_header Http.write
send_whole_lem w live fresh =
    let sized = with_length (body_length w.buf) in
    rw
      (
        change_header_lem sized w live,
        change_header_lem without_stored (with_header (sized w.rw.header) w)
            (is_detached-with_header (sized w.rw.header) w ∙ live),
        not_sent w live,
        fresh,
      )
      refl

send-final_header :
    (dates : Dates) (serve_content : ServeContent) (w : CustomWriter)
    → is_detached w ≡ false
    → is_range_request w ≡ false
    → w.rw.sent ≡ none
    → (send dates serve_content w).rw ≡ record {
      header = final_header w;
      sent = some (w.status_code, final_header w);
      body = w.rw.body <> w.buf;
    }
unfolding send is_detached is_range_request
send-final_header dates serve_content w live whole fresh =
    rw (prepare_lem w live, whole)
      (send_whole_lem (record w { rw = record w.rw { header = prepared w } }) live fresh)

and_true : (b : Bool) → (b && true) ≡ b
and_true false = refl
and_true true = refl

not_both : (b : Bool) → (b && false) ≡ false
not_both false = refl
not_both true = refl

get-with_length :
    (l : String) (h : Header) (name : String)
    → Headers.get (with_length l h) name ≡ (
        if canonical_key "Content-Length" == canonical_key name && not (l == "")
        then l
        else Headers.get h name)
unfolding with_length
get-with_length l h name = elim (Bool-cases (l == "")) [
  | inl e ↦ rw (e, not_both (canonical_key "Content-Length" == canonical_key name)) refl
  | inr e ↦
      rw
        (
          e,
          and_true (canonical_key "Content-Length" == canonical_key name),
          get-set h "Content-Length" name l,
        )
        refl
]

length-final_header :
    (w : CustomWriter)
    → Headers.get (final_header w) "Content-Length"
      ≡ or_text (body_length w.buf) (
          or_text
            (Headers.get w.rw.header stored_length_header)
            (Headers.get w.rw.header "Content-Length"))
unfolding canonical_key
length-final_header w =
    rw (get-without_stored, get-with_length, get-without_stored, get-with_length) refl

hidden-final_header :
    (w : CustomWriter)
    → (Headers.get (final_header w) stored_ttl_header ≡ "")
      × (Headers.get (final_header w) stored_length_header ≡ "")
unfolding canonical_key
hidden-final_header w = (rw get-without_stored refl, rw get-without_stored refl)

-- For a request without ranges, a writer that is not detached sends its code and its body. The
-- Content-Length that it sends is that of the body, or of an empty body the stored one, or else the
-- one that was there; the two headers of the storage are not sent.
pub send_whole_response :
    (dates : Dates) (serve_content : ServeContent) (w : CustomWriter)
    → is_detached w ≡ false
    → is_range_request w ≡ false
    → w.rw.sent ≡ none
    → ((send dates serve_content w).rw ≡ record {
      header = final_header w;
      sent = some (w.status_code, final_header w);
      body = w.rw.body <> w.buf;
    })
      × (Headers.get (final_header w) "Content-Length"
          ≡ or_text (body_length w.buf) (
              or_text
                (Headers.get w.rw.header stored_length_header)
                (Headers.get w.rw.header "Content-Length")))
      × (Headers.get (final_header w) stored_ttl_header ≡ "")
      × (Headers.get (final_header w) stored_length_header ≡ "")
send_whole_response dates serve_content w live whole fresh = (
  send-final_header dates serve_content w live whole fresh,
  length-final_header w,
  (hidden-final_header w).0,
  (hidden-final_header w).1,
)

detached : (w : CustomWriter) → w.headers_sent ≡ true → is_detached w ≡ true
unfolding is_detached
detached w sent = rw sent refl

change_detached :
    (f : Header → Header) (w : CustomWriter) → is_detached w ≡ true → change_header f w ≡ w
unfolding change_header
change_detached f w gone = rw gone refl

prepare_detached : (w : CustomWriter) → is_detached w ≡ true → prepare w ≡ w
unfolding prepare
prepare_detached w gone =
    rw
      (
        change_detached (with_length (Headers.get (header w) stored_length_header)) w gone,
        change_detached without_stored w gone,
      )
      refl

no_range : (w : CustomWriter) → w.headers_sent ≡ true → is_range_request w ≡ false
unfolding is_range_request
no_range w sent = rw (sent, not_both (eqb w.status_code 200), not_both) refl

write_nothing : (rw : Http.ResponseWriter) → is_some rw.sent ≡ true → Http.write "" rw ≡ rw
unfolding Http.write Http.write_header
write_nothing r there = rw (there, append-nil r.body) refl

send_whole_detached :
    (w : CustomWriter) → w.headers_sent ≡ true → (send_whole w).rw ≡ Http.write w.buf w.rw
unfolding send_whole
send_whole_detached w sent =
    let gone = detached w sent in
    rw
      (
        change_detached (with_length (body_length w.buf)) w gone,
        change_detached without_stored w gone,
        sent,
      )
      refl

-- Once a response is sent, sending again an empty buffer changes nothing of it.
pub send_again :
    (dates : Dates) (serve_content : ServeContent) (w : CustomWriter)
    → w.headers_sent ≡ true
    → w.buf ≡ ""
    → is_some w.rw.sent ≡ true
    → (send dates serve_content w).rw ≡ w.rw
unfolding send
send_again dates serve_content w sent no_body there =
    rw (prepare_detached w (detached w sent), no_range w sent, send_whole_detached w sent, no_body)
      (write_nothing w.rw there)
