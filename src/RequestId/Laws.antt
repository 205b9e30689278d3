-- ===== src/RequestId/Laws.antt =====
-- The id that src/middleware/request_id.py gives to a request, on its response.
use prd_api_wrapper.Prelude.{
  String, ◌≡◌, refl, ◌∙◌, ◌⊎◌, Option, none, some, or_default, ap, non_empty,
}
use prd_api_wrapper.Prelude.Dict.{lookup, lookup-insert}
use prd_api_wrapper.Json.{str}
use prd_api_wrapper.Errors.{or_empty}
use prd_api_wrapper.Errors.Handlers.{
  RequestState, JsonResponse, Raised, app, invalid_request, crash, handle_error,
  unhandled_error_handler, collected_headers,
}
use prd_api_wrapper.Errors.Laws.{error_member, text, or_empty-non_empty, enveloped}
use prd_api_wrapper.Exec.{Result, ok, raised, Exec}
use prd_api_wrapper.RequestId.Safe.{IsSafe, chosen_id_cases}
use prd_api_wrapper.RequestId.{
  incoming_id, chosen_id, request_id_header, tag, dispatch, catch_known, catch_all, serve,
}

abbrev pub header_of : String → JsonResponse → Option String
header_of name response = lookup name (or_empty response.headers)

-- What a response says of the id of its request. One that a route returned is of the route's
-- making, but for the header; a failure names the id in its body too, and only one that is none of
-- our errors has no header.
abbrev pub Carries : String → Result JsonResponse → RequestState → JsonResponse → Type 0
Carries id (ok r) s response =
    (header_of request_id_header response ≡ some id)
    × (response.content ≡ r.content)
    × (response.status_code ≡ r.status_code)
Carries id (raised (crash m)) s response =
    (error_member "request_id" response.content ≡ some (str id))
    × (header_of request_id_header response ≡ lookup request_id_header (collected_headers s))
Carries id (raised r) s response =
    (error_member "request_id" response.content ≡ some (str id))
    × (header_of request_id_header response ≡ some id)

tagged :
    {S : Type 0} (id : String) (response : JsonResponse) (s : RequestState × S)
    → header_of request_id_header (catch_all (tag id (ok response, s))).0 ≡ some id
tagged id response s =
    lookup-insert request_id_header request_id_header id (or_empty response.headers)

named :
    (id : String) (s : RequestState) (r : Raised)
    → non_empty s.request_id ≡ some id
    → error_member "request_id" (handle_error s r).content ≡ some (str id)
named id s r h = (enveloped s r).4 ∙ ap text h

answered :
    {S : Type 0} (id : String) (r : Result JsonResponse) (s : RequestState × S)
    → non_empty s.0.request_id ≡ some id
    → Carries id r s.0 (catch_all (tag id (catch_known (r, s)))).0
answered id (ok response) s h = (tagged id response s, refl, refl)
answered id (raised (app e)) s h = (named id s.0 (app e) h, tagged id (handle_error s.0 (app e)) s)
answered id (raised (invalid_request v)) s h =
    (named id s.0 (invalid_request v) h, tagged id (handle_error s.0 (invalid_request v)) s)
answered id (raised (crash m)) s h = (
  named id s.0 (crash m) h,
  unfold handle_error unhandled_error_handler in
      or_empty-non_empty (collected_headers s.0) request_id_header,
)

or_default_full :
    (o : Option String) (d : String)
    → non_empty (some d) ≡ some d
    → non_empty (some (or_default o d)) ≡ some (or_default o d)
or_default_full none d h = h
or_default_full (some String.[]) d h = h
or_default_full (some (String.◌∷◌ c s)) d h = refl

-- Every request has one id: what the client sent if that is safe, 1 to 64 letters of ASCII, digits,
-- full stops, underscores and hyphens with a line feed after them at most, and else the fresh one.
-- Outside of debug mode, any response but the one to an exception that is none of our errors has it in the header
-- `X-Request-ID`, and every failure, that one included, names it in its body. It is assumed that
-- the fresh id is not empty and that the route does not change the id.
pub serve-Carries :
    {S : Type 0} (fresh : String) (header : Option String)
    (route : Exec (RequestState × S) JsonResponse) (request : RequestState) (s : S)
    → non_empty (some fresh) ≡ some fresh
    → ((t : RequestState × S) → (route t).1.0.request_id ≡ t.0.request_id)
    → (id : String) × (((header ≡ some id) × IsSafe id)
        ⊎ ((id ≡ fresh) × ((sent : String) → header ≡ some sent → ¬ IsSafe sent)))
      × (let (r, t) = route (record request { request_id = some id }, s) in
          Carries id r t.0 (serve fresh header route (request, s)).0)
unfolding serve dispatch
serve-Carries fresh header route request s full keeps =
    let id = chosen_id header fresh in
    let o = route (record request { request_id = some id }, s) in
    (
      id,
      chosen_id_cases header fresh,
      answered id o.0 o.1 (
          ap non_empty (keeps (record request { request_id = some id }, s))
          ∙ or_default_full (incoming_id header) fresh full),
    )
