-- ===== src/Rfc/Revalidation.antt =====
-- pkg/rfc/revalidation.go: the conditions of a request.
use souin.Prelude.{
  String, Bool, true, false, ◌||◌, not, Option, none, List, [], ◌∷◌, ◌==◌, map, if◌then◌else◌,
}
use souin.Prelude.Int.{ℤ}
use souin.Text.{split, trim_blanks}
use souin.Clock.{Dates}
use souin.Http.{Request}
use souin.Http.Headers
use souin.Storage.{Revalidator}

abbrev pub is_empty : List String → Bool
is_empty [] = true
is_empty (_ ∷ _) = false

-- The entity tags of If-None-Match, each without the blanks around it.
unfoldable pub request_etags : Request → List String
unfolding split trim_blanks Headers.get
request_etags req =
    if not (Headers.get req.header "If-None-Match" == "")
    then map trim_blanks (split (Headers.get req.header "If-None-Match") ",")
    else []

-- The date of a header; `none` if the header is empty. A text that does not parse is the zero time,
-- which is `none` here too.
abbrev pub date_of : Dates → Request → String → Option ℤ
date_of dates req name =
    if Headers.get req.header name == ""
    then none
    else dates.parse_rfc1123 (Headers.get req.header name)

-- ParseRequest
unfoldable pub parse_request : Dates → Request → Revalidator
unfolding request_etags Headers.get Headers.values
parse_request dates req =
    let modified = not (Headers.get req.header "If-Modified-Since" == "") in
    let unmodified = not (Headers.get req.header "If-Unmodified-Since" == "") in
    let none_match = Headers.values req.header "If-None-Match" in
    record {
      matched = false;
      if_none_match_present = not (is_empty none_match);
      if_modified_since_present = modified;
      if_unmodified_since_present = unmodified;
      need_revalidation = modified || unmodified;
      not_modified = not (is_empty (request_etags req));
      if_modified_since = date_of dates req "If-Modified-Since";
      if_unmodified_since = date_of dates req "If-Unmodified-Since";
      if_none_match = none_match;
      request_etags = request_etags req;
      response_etag = "";
    }
