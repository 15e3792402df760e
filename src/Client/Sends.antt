-- ===== src/Client/Sends.antt =====
-- What holds of all requests that a call to oCIS sends (internal/client): a predicate on the URL, the
-- destination and the credential, carried through the steps that calls are made of.
use ocis_mcp_server.Base.{
  ℕ, zero, suc, ◌≡◌, refl, sym, subst, inl, inr, false, String, [], ◌∷◌, ◌==◌, eq_iff, All, nat_eq,
  Result, ok, err, Bool-cases,
}
use ocis_mcp_server.Client.{
  Headers, HttpRequest, HttpResponse, ClientError, Network, Wire, Net, and_then, continue_with,
  check, done, fail, in_step, attempt, wrap_error, header, remove_header, set_header,
}
use ocis_mcp_server.Client.Attempts.{clone-cases}
use ocis_mcp_server.Client.Graph.{lift}
use ocis_mcp_server.Client.Retry.{clone_request_for_attempt, answered, send, attempts, do_request}

header-remove_header :
    (name k : String) (hs : Headers)
    → (k == name) ≡ false
    → header name (remove_header k hs) ≡ header name hs
unfolding header remove_header
header-remove_header name k [] d = refl
header-remove_header name k ((j, v) ∷ rest) d = elim (Bool-cases (j == k)) [
  | inl e ↦ rw e (
      subst (λ i. header name (remove_header k rest) ≡ header name ((i, v) ∷ rest))
        (sym ((eq_iff j k).0 e)) (rw d (header-remove_header name k rest d)))
  | inr e ↦ rw e (elim (Bool-cases (j == name)) [
    | inl same ↦ rw same refl
    | inr other ↦ rw other (header-remove_header name k rest d)
  ])
]

-- a header that is set changes no other
pub header-set_header :
    (name k v : String) (r : HttpRequest)
    → (k == name) ≡ false
    → header name (set_header k v r).headers ≡ header name r.headers
unfolding header set_header
header-set_header name k v r d = rw d (header-remove_header name k r.headers d)

module _ {ℓ} {A : Type ℓ} (P : HttpRequest → Type 0) where
  -- If all requests before the call have the property, then all requests after it do.
  pub record Sends (m : Net A) : Type ℓ where
    pub kept : (w : Wire) → All P w.sent → All P (m w).1.sent

wrap_error-All {ℓ} :
    (Q : HttpRequest → Type 0) {A : Type ℓ} (what : String) (p : Result ClientError A × Wire)
    → All Q p.1.sent
    → All Q (wrap_error what p).1.sent
wrap_error-All Q what (ok a, w) h = h
wrap_error-All Q what (err e, w) h = h

module _ {P : HttpRequest → Type 0} where
  pub done-Sends {ℓ} : {A : Type ℓ} (a : A) → Sends P (done a)
  unfolding done
  done-Sends a = record { kept = λ w h. h }

  pub fail-Sends {ℓ} : {A : Type ℓ} (e : ClientError) → Sends {A = A} P (fail e)
  unfolding fail
  fail-Sends e = record { kept = λ w h. h }

  continue_with-All {ℓ κ} :
      {A : Type ℓ} {B : Type κ} (k : A → Net B)
      → ((a : A) → Sends P (k a))
      → (p : Result ClientError A × Wire) → All P p.1.sent
      → All P (continue_with k p).1.sent
  continue_with-All k f (ok a, w) h = (f a).kept w h
  continue_with-All k f (err e, w) h = h

  pub and_then-Sends {ℓ κ} :
      {A : Type ℓ} {B : Type κ} {m : Net A} {k : A → Net B}
      → Sends P m
      → ((a : A) → Sends P (k a))
      → Sends P (and_then m k)
  unfolding and_then
  and_then-Sends {m} {k} f g = record { kept = λ w h. continue_with-All k g (m w) (f.kept w h) }

  pub lift-Sends {ℓ κ} :
      {A : Type ℓ} {B : Type κ} {r : Result ClientError A} {k : A → Net B}
      → ((a : A) → r ≡ ok a → Sends P (k a))
      → Sends P (and_then (lift r) k)
  unfolding and_then lift
  lift-Sends {r = ok a} f = record { kept = λ w h. (f a refl).kept w h }
  lift-Sends {r = err e} f = record { kept = λ w h. h }

  pub check-Sends {ℓ} :
      {A : Type ℓ} {r : Result ClientError (Unit {0})} {m : Net A}
      → (r ≡ ok tt → Sends P m)
      → Sends P (check r m)
  unfolding check
  check-Sends {r = ok tt} f = record { kept = λ w h. (f refl).kept w h }
  check-Sends {r = err e} f = record { kept = λ w h. h }

  pub in_step-Sends {ℓ} :
      {A : Type ℓ} (what : String) {m : Net A} → Sends P m → Sends P (in_step what m)
  unfolding in_step
  in_step-Sends what {m} f = record { kept = λ w h. wrap_error-All P what (m w) (f.kept w h) }

  pub attempt-Sends {ℓ} : {A : Type ℓ} {m : Net A} → Sends P m → Sends P (attempt m)
  unfolding attempt
  attempt-Sends f = record { kept = λ w h. f.kept w h }

  module _ ⦃n : Network⦄ where
    answered-All :
        (left : ℕ) (again : Net HttpResponse) (res : Result String HttpResponse) (w : Wire)
        → Sends P again
        → All P w.sent
        → All P (answered left again res w).1.sent
    unfolding answered
    answered-All left again (err e) w f h = h
    answered-All zero again (ok resp) w f h = elim (Bool-cases (nat_eq resp.status 429)) [
      | inr e ↦ rw (e, answered) h
      | inl e ↦ rw (e, answered) h
    ]
    answered-All (suc left) again (ok resp) w f h = elim (Bool-cases (nat_eq resp.status 429)) [
      | inr e ↦ rw (e, answered) h
      | inl e ↦ rw (e, answered) (f.kept _ h)
    ]

    attempts-All :
        (left : ℕ) (r : HttpRequest) (w : Wire)
        → P r
        → Sends P (attempts left r)
        → All P w.sent
        → All P (attempts (suc left) r w).1.sent
    unfolding attempts send clone_request_for_attempt
    attempts-All left r w p f h = elim (clone-cases r) [
      | inl e ↦
          rw (e, attempts)
            (answered-All left (attempts left r) (n.transport (r ∷ w.sent)) (send r w) f (p, h))
      | inr (b, e) ↦ rw (e, attempts, clone_request_for_attempt) h
    ]

    attempts-Sends : (left : ℕ) (r : HttpRequest) → P r → Sends P (attempts left r)
    unfolding attempts send
    attempts-Sends zero r p = record { kept = λ w h. h }
    attempts-Sends (suc left) r p = record {
      kept = λ w h. attempts-All left r w p (attempts-Sends left r p) h;
    }

    pub do_request-Sends : (r : HttpRequest) → P r → Sends P (do_request r)
    unfolding do_request
    do_request-Sends r p = attempts-Sends 3 r p
