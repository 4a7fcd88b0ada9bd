-- ===== src/Tests/Responses.antt =====
-- Responses that are sent and stored.
use souin.Prelude.{◌≡◌, refl, Bool, true, false, Option, none, some, [], ◌∷◌}
use souin.Prelude.Int.{pos}
use souin.Text.{◌<>◌}
use souin.Http.Headers
use souin.Http.Headers.{Header}
use souin.Storage.Default.{Default}
use souin.Surrogate.Base.{BaseStorage}
use souin.Middleware.{Handler, Printers}
use souin.Middleware.Writer.{ServeContent, CustomWriter, send}
use souin.Middleware.Writer.Laws.{final_header, send_whole_response}
use souin.Middleware.Store.{store}
use souin.Tests.Data.{dates, control, request, any_request, storer, no_tags}

abbrev pub printers : Printers
printers = record { status_text = λ _. "OK"; header_text = λ _. ""; hash_key = λ k. k }

abbrev pub handler : Handler Default
handler = record {
  storers = storer ∷ [];
  default_ttl = pos 60_000_000_000;
  default_cache_control = "";
  allowed_additional_status_codes = [];
  max_body_bytes = pos 0;
  surrogate_disabled = true;
  coalescing_disabled = false;
  find_url = λ _. "";
  url_ttl = λ _. pos 0;
}

abbrev pub serve : ServeContent
serve rw method h modtime body = rw

-- A response of the upstream server, which is not sent yet.
abbrev pub fetched : CustomWriter
fetched = record {
  buf = "body";
  rw = record {
    header = ("Cache-Control", "max-age=60" ∷ []) ∷ ("X-Souin-Stored-Length", "9" ∷ []) ∷ [];
    sent = none;
    body = "";
  };
  req = request;
  headers = [];
  status_code = 200;
  headers_sent = false;
}

abbrev already_sent : CustomWriter
already_sent = record fetched {
  buf = "";
  headers_sent = true;
  rw = record fetched.rw { sent = some (200, []) };
}

send_whole_response_example :
    ((send dates serve fetched).rw ≡ record {
      header = final_header fetched;
      sent = some (200, final_header fetched);
      body = "body";
    })
    × (Headers.get (final_header fetched) "Content-Length" ≡ "4")
    × (Headers.get (final_header fetched) "X-Souin-Stored-TTL" ≡ "")
    × (Headers.get (final_header fetched) "X-Souin-Stored-Length" ≡ "")
unfolding souin.Middleware.Writer.is_detached souin.Middleware.Writer.is_range_request Headers.get
    Headers.lookup souin.Text.Numbers.itoa
send_whole_response_example = send_whole_response dates serve fetched refl refl refl

-- What Store returns for the response, with the state that it leaves.
abbrev stored : Option (Bool × CustomWriter × BaseStorage Default)
stored =
    store storer dates control printers handler (pos 0) request any_request "key" "/page" fetched
      no_tags

abbrev the_result :
    Option (Bool × CustomWriter × BaseStorage Default) → Bool × CustomWriter × BaseStorage Default
the_result none = (false, fetched, no_tags)
the_result (some r) = r
