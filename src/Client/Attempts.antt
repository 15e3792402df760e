-- ===== src/Client/Attempts.antt =====
-- Theorems on `Do` (internal/client/client.go): the loop ends, and what it makes of the answers.
use ocis_mcp_server.Base.{
  ℕ, zero, suc, ◌+◌, ◌≤◌, ◌≡◌, ◌≢◌, refl, ◌⊎◌, inl, inr, Bool, true, false, String, ◌∷◌, length,
  nat_eq, arith, Result, ok, err, sym, ap, ◌∙◌, Result-cases, Bool-cases,
}
use mathlib.Core.Bool.{false≢true}
use ocis_mcp_server.Base.Bytes.{Bytes}
use ocis_mcp_server.Client.{Payload, HttpRequest, HttpResponse, ClientError, Network, Wire, header}
use ocis_mcp_server.Client.ClientError.{api_error, failure, wrapped}
use ocis_mcp_server.Client.Payload.{empty, content, bytes, json, stream}
use ocis_mcp_server.Client.Retry.{
  clone_request_for_attempt, parse_retry_after, answered, send, attempts, do_request,
}

module _ ⦃n : Network⦄ where
  -- The loop's result as a specification: how it ends after `left` more answers, what it has sent
  -- then, and how long it has slept.
  pub data Ends (r : HttpRequest) : ℕ → Wire → Result ClientError HttpResponse → Wire → Type 0 where
    unreachable :
        {left : ℕ} {w : Wire} {e : String}
        → n.transport (r ∷ w.sent) ≡ err e
        → Ends r (suc left) w (err (wrapped "HTTP request failed" (failure e))) (send r w)
    served :
        {left : ℕ} {w : Wire} {resp : HttpResponse}
        → n.transport (r ∷ w.sent) ≡ ok resp
        → resp.status ≢ 429
        → Ends r (suc left) w (ok resp) (send r w)
    given_up :
        {w : Wire} {resp : HttpResponse}
        → n.transport (r ∷ w.sent) ≡ ok resp
        → resp.status ≡ 429
        → Ends r 1 w (err (api_error 429 "rate limited by oCIS after 3 retries")) (send r w)
    retried :
        {left : ℕ} {w : Wire} {resp : HttpResponse} {res : Result ClientError HttpResponse}
        {w' : Wire}
        → n.transport (r ∷ w.sent) ≡ ok resp
        → resp.status ≡ 429
        → Ends r
            (suc left)
            (record {
              sent = r ∷ w.sent;
              slept = parse_retry_after (r ∷ w.sent) (header "Retry-After" resp.headers) ∷ w.slept;
            })
            res
            w'
        → Ends r (suc (suc left)) w res w'

  -- The body can be read again.
  abbrev pub IsReplayable : HttpRequest → Type 0
  IsReplayable r = clone_request_for_attempt r ≡ ok r

  attempts-Ends :
      (left : ℕ) (r : HttpRequest) (w : Wire)
      → IsReplayable r
      → Ends r (suc left) w (attempts (suc left) r w).0 (attempts (suc left) r w).1
  unfolding attempts answered send
  attempts-Ends zero r w h =
      rw (h, attempts)
        (elim (Result-cases (n.transport (r ∷ w.sent))) [
          | inr (e, q) ↦ rw (q, answered) (unreachable q)
          | inl (resp, q) ↦
              rw (q, answered)
                (elim (Bool-cases (nat_eq resp.status 429)) [
                  | inl t ↦ rw (t, answered) (given_up q (ground (arith, t)))
                  | inr t ↦ rw (t, answered) (served q (λ e. ground (arith, t, e)))
                ])
        ])
  attempts-Ends (suc left) r w h =
      rw (h, attempts)
        (elim (Result-cases (n.transport (r ∷ w.sent))) [
          | inr (e, q) ↦ rw (q, answered) (unreachable q)
          | inl (resp, q) ↦
              rw (q, answered)
                (elim (Bool-cases (nat_eq resp.status 429)) [
                  | inl t ↦
                      rw (t, answered) (retried q (ground (arith, t)) (attempts-Ends left r _ h))
                  | inr t ↦ rw (t, answered) (served q (λ e. ground (arith, t, e)))
                ])
        ])

  -- A request whose body can be read again: `Do` asks up to three times, after an answer of 429 once
  -- more while attempts are left, and ends with the first other answer, the first error of the
  -- transport, or an error of status 429 after the third.
  pub do_request-Ends :
      (r : HttpRequest) (w : Wire)
      → IsReplayable r
      → Ends r 3 w (do_request r w).0 (do_request r w).1
  unfolding do_request
  do_request-Ends r w h = attempts-Ends 2 r w h

  -- What the caller sees of a loop that ran out of attempts without an answer.
  abbrev pub exhausted : Result ClientError HttpResponse
  exhausted = err (failure "exhausted retries")

  -- How many requests and pauses there are at most with `left` attempts, and what is not returned.
  pub record IsBounded (left : ℕ) (w : Wire) (res : Result ClientError HttpResponse) (w' : Wire)
      : Type 0 where
    pub sent : length w'.sent ≤ left + length w.sent
    pub slept : suc (length w'.slept) ≤ left + length w.slept
    pub ended : res ≢ exhausted

  is_failure : Result ClientError HttpResponse → Bool
  is_failure (err (failure _)) = true
  is_failure _ = false

  not_exhausted : (res : Result ClientError HttpResponse) → is_failure res ≡ false → res ≢ exhausted
  unfolding is_failure
  not_exhausted res h e = false≢true (sym h ∙ ap is_failure e)

  Ends-IsBounded :
      {r : HttpRequest} {left : ℕ} {w w' : Wire} {res : Result ClientError HttpResponse}
      → Ends r left w res w'
      → IsBounded left w res w'
  unfolding send is_failure
  Ends-IsBounded (unreachable _) = record {
    sent = omega arith;
    slept = omega arith;
    ended = not_exhausted _ refl;
  }
  Ends-IsBounded (served _ _) = record {
    sent = omega arith;
    slept = omega arith;
    ended = not_exhausted _ refl;
  }
  Ends-IsBounded (given_up _ _) = record {
    sent = omega arith;
    slept = omega arith;
    ended = not_exhausted _ refl;
  }
  Ends-IsBounded (retried _ _ later) =
      let b = Ends-IsBounded later in
      record { sent = omega (arith, b.sent); slept = omega (arith, b.slept); ended = b.ended }

  -- A stream is never sent: the call fails and changes nothing.
  pub do_request-stream :
      (r : HttpRequest) (b : Bytes) (w : Wire)
      → r.body ≡ stream b
      → do_request r w ≡ (
        err (
            wrapped "preparing HTTP request"
              (failure "cannot retry request with a non-replayable body")),
        w,
      )
  unfolding do_request attempts clone_request_for_attempt
  do_request-stream r b w h = rw h refl

  pub clone-cases : (r : HttpRequest) → IsReplayable r ⊎ ((b : Bytes) × (r.body ≡ stream b))
  unfolding clone_request_for_attempt
  clone-cases r =
      let Q : Payload → Type 0 =
        λ p. (r.body ≡ p) → IsReplayable r ⊎ ((b : Bytes) × (r.body ≡ stream b)) in
      let split : (p : Payload) → Q p = λ p. elim p as Q [
        | empty ↦ λ e. inl (rw e refl)
        | content _ ↦ λ e. inl (rw e refl)
        | bytes _ ↦ λ e. inl (rw e refl)
        | json _ ↦ λ e. inl (rw e refl)
        | stream b ↦ λ e. inr (b, e)
      ] in
      split r.body refl

  -- `Do` sends a request three times at most, sleeps twice at most, and never ends for want of
  -- attempts without an answer.
  pub do_request-IsBounded :
      (r : HttpRequest) (w : Wire) → IsBounded 3 w (do_request r w).0 (do_request r w).1
  unfolding is_failure
  do_request-IsBounded r w = elim (clone-cases r) [
    | inl h ↦ Ends-IsBounded (do_request-Ends r w h)
    | inr (b, h) ↦
        rw (do_request-stream r b w h)
          (record { sent = omega arith; slept = omega arith; ended = not_exhausted _ refl })
  ]
