-- ===== src/Client/Errors.antt =====
-- internal/client/errors.go: the errors of oCIS, and the tests for a kind of error.
use Prim.Native.String.{◌++◌}
use ocis_mcp_server.Base.{ℕ, String, Bool, false, Option, none, some, ◌==◌, if◌then◌else◌, nat_eq}
use ocis_mcp_server.Base.Bytes.{take}
use ocis_mcp_server.Base.Ints.{decimal}
use ocis_mcp_server.Client.{HttpResponse, ClientError, Network}
use ocis_mcp_server.Client.ClientError.{api_error, failure, quoted, wrapped}

-- `err.(*APIError)` sees an error that no other one wraps.
unfoldable pub has_status : ℕ → ClientError → Bool
has_status code (api_error status _) = nat_eq status code
has_status code _ = false

unfoldable pub is_not_found : ClientError → Bool
unfolding has_status
is_not_found e = has_status 404 e

unfoldable pub is_forbidden : ClientError → Bool
unfolding has_status
is_forbidden e = has_status 403 e

unfoldable pub is_conflict : ClientError → Bool
unfolding has_status
is_conflict e = has_status 409 e

-- `Error()`
unfoldable pub error_text : ⦃n : Network⦄ → ClientError → String
error_text (api_error status message) =
    "oCIS API error (HTTP " ++ (decimal status ++ ("): " ++ message))
error_text (failure message) = message
error_text ⦃n⦄ (quoted message value) = message ++ n.quote value
error_text (wrapped message e) = message ++ (": " ++ error_text e)

unfoldable pub http_status_message : ℕ → String
http_status_message code =
    if nat_eq code 400
    then "bad request"
    else if nat_eq code 401
    then "authentication failed — check your OIDC token or app token"
    else if nat_eq code 403
    then "insufficient permissions"
    else if nat_eq code 404
    then "resource not found"
    else if nat_eq code 409
    then "conflict — resource already exists or version mismatch"
    else if nat_eq code 500
    then "internal server error"
    else if nat_eq code 502
    then "bad gateway — oCIS may be unavailable"
    else if nat_eq code 503
    then "service unavailable"
    else "unexpected status " ++ decimal code

-- a message that was found and is not empty replaces the one before
unfoldable pub replace_message : Option String → String → String
replace_message none old = old
replace_message (some s) old = if s == "" then old else s

unfoldable pub error_from_response : ⦃n : Network⦄ → HttpResponse → ClientError
unfolding http_status_message replace_message
error_from_response ⦃n⦄ resp =
    let body = take 4096 resp.body in
    api_error resp.status (
      replace_message (n.ocs_message body)
        (replace_message (n.error_message body) (http_status_message resp.status)))
