-- ===== src/Client/Retry.antt =====
-- internal/client/client.go, `Do` and `DoJSON`: three attempts while oCIS answers 429.
use ocis_mcp_server.Base.{
  ℕ, zero, suc, ◌*◌, String, true, false, Option, none, some, List, ◌∷◌, ◌==◌, if◌then◌else◌,
  nat_eq, leb, Result, ok, err,
}
use ocis_mcp_server.Base.Ints.{ℤ, pos, ◌*ℤ◌, is_positive, atoi}
use ocis_mcp_server.Base.Text.{codes}
use ocis_mcp_server.Client.{
  HttpRequest, HttpResponse, ClientError, Network, Wire, Net, header, set_header, and_then, done,
  fail,
}
use ocis_mcp_server.Client.ClientError.{api_error, failure, wrapped}
use ocis_mcp_server.Client.Payload.{stream}
use ocis_mcp_server.Client.Errors.{error_from_response}

unfoldable pub clone_request_for_attempt : HttpRequest → Result ClientError HttpRequest
clone_request_for_attempt r = elim r.body [
  | stream _ ↦ err (failure "cannot retry request with a non-replayable body")
  | _ ↦ ok r
]

-- nanoseconds
abbrev second : ℕ
second = 1000000000

module _ ⦃n : Network⦄ where
  unfoldable pub date_delay : Option ℤ → ℤ
  date_delay none = pos (2 * second)
  date_delay (some d) = if is_positive d then d else pos (2 * second)

  unfoldable pub parse_retry_after : List HttpRequest → String → ℤ
  unfolding date_delay
  parse_retry_after sent val = if val == "" then pos (2 * second) else elim (atoi (codes val)) [
    | some secs ↦ secs *ℤ pos second
    | none ↦ date_delay (n.until sent val)
  ]

  -- What an attempt makes of the answer, with `left` attempts after it.
  unfoldable pub answered :
      ℕ
      → (Wire → Result ClientError HttpResponse × Wire)
      → Result String HttpResponse
      → Net HttpResponse
  unfolding parse_retry_after
  answered left again (err e) w = (err (wrapped "HTTP request failed" (failure e)), w)
  answered left again (ok resp) w = elim (nat_eq resp.status 429) [
    | false ↦ (ok resp, w)
    | true ↦ elim left [
      | zero ↦ (err (api_error 429 "rate limited by oCIS after 3 retries"), w)
      | suc _ ↦ again (record w {
        slept = parse_retry_after w.sent (header "Retry-After" resp.headers) ∷ w.slept;
      })
    ]
  ]

  unfoldable pub send : HttpRequest → Wire → Wire
  send r w = record w { sent = r ∷ w.sent }

  -- The loop of `Do`, on the number of attempts that are left.
  unfoldable pub attempts : ℕ → HttpRequest → Net HttpResponse
  unfolding answered send
  attempts zero r w = (err (failure "exhausted retries"), w)
  attempts (suc left) r w = elim (clone_request_for_attempt r) [
    | err e ↦ (err (wrapped "preparing HTTP request" e), w)
    | ok again ↦ answered left (attempts left r) (n.transport (again ∷ w.sent)) (send again w)
  ]

  abbrev max_retries : ℕ
  max_retries = 3

  unfoldable pub do_request : HttpRequest → Net HttpResponse
  unfolding attempts
  do_request r = attempts max_retries r

  unfoldable pub accept_json : HttpRequest → HttpRequest
  accept_json r =
      if header "Accept" r.headers == "" then set_header "Accept" "application/json" r else r

  -- an answer from 400 on is an error
  unfoldable pub check_status : HttpResponse → Net HttpResponse
  check_status resp = if leb 400 resp.status then fail (error_from_response resp) else done resp

  unfoldable pub do_json : HttpRequest → Net HttpResponse
  unfolding accept_json check_status
  do_json r = and_then (do_request (accept_json r)) check_status
