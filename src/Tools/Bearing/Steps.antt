-- ===== src/Tools/Bearing/Steps.antt =====
-- What the handlers of internal/tools are made of sends only requests to oCIS, with one credential.
use Prim.Native.String.{◌++◌}
use Prim.Native.Char.{code}
use mathlib.Core.Bool.{false≢true}
use text.Mathlib.TextLemmas.{cons-append}
use ocis_mcp_server.Base.{ℕ, leb, nat_eq, Bool, true, false, String, ◌≡◌, refl, Result, if_elim}
use ocis_mcp_server.Client.{check}
use ocis_mcp_server.Tools.Calls.{ToolCall, WorkflowCall}
use ocis_mcp_server.Tools.Calls.ToolCall.{workflow_call}
use ocis_mcp_server.Tools.Calls.WorkflowCall.{find_and_download}
use ocis_mcp_server.Client.Admits.{Admits, credential}
use ocis_mcp_server.Client.Calls.{decoded-Sends}
use ocis_mcp_server.Client.Sends.{Sends, fail-Sends, check-Sends}
use ocis_mcp_server.Client.{ClientError}
use ocis_mcp_server.Tools.Notifications.{from_raw}
use ocis_mcp_server.Client.{Network, Client, Context, Net}

-- the first character of the text is a slash
unfoldable pub rooted : String → Bool
rooted String.[] = false
rooted (String.◌∷◌ a s) = nat_eq (code a) b'/'

-- the one handler that sends a request to an address out of an answer
unfoldable pub follows_workflow : WorkflowCall → Bool
follows_workflow (find_and_download _) = true
follows_workflow _ = false

unfoldable pub follows_answer : ToolCall → Bool
unfolding follows_workflow
follows_answer (workflow_call call) = follows_workflow call
follows_answer _ = false

-- The address: the base URL with a path behind it that begins with a slash, so that the host is the
-- base URL's; or, where the call follows an answer, the base URL with an href of the answer behind it.
pub data IsAddress (c : Client) (follows : Bool) (url : String) : Type 0 where
  at_root :
      (path : String) → rooted path ≡ true → url ≡ c.base_url ++ path → IsAddress c follows url
  at_href : (href : String) → follows ≡ true → url ≡ c.base_url ++ href → IsAddress c follows url

-- The address is one of the server, and the request bears this credential.
pub record IsBearing (c : Client) (follows : Bool) (k url dest authorization : String)
    : Type 0 where
  pub address : IsAddress c follows url
  pub bears : authorization ≡ k

-- A text that a rooted text begins is rooted.
pub rooted-append : (s t : String) → rooted s ≡ true → rooted (s ++ t) ≡ true
unfolding rooted
rooted-append String.[] t h = absurd (false≢true h)
rooted-append (String.◌∷◌ a s) t h = rw cons-append h

pub there :
    {c : Client} {k dest : String} (href : String) → IsBearing c true k (c.base_url ++ href) dest k
there href = record { address = IsAddress.at_href href refl refl; bears = refl }

abbrev pub Bearing : ⦃n : Network⦄ → Client → Context → Bool → String → String → String → Type 0
Bearing c ctx follows = IsBearing c follows (credential c ctx)

module _ ⦃n : Network⦄ {c : Client} {follows : Bool} {k : String} where
  pub here :
      {dest : String} (path : String)
      → rooted path ≡ true
      → IsBearing c follows k (c.base_url ++ path) dest k
  here path h = record { address = IsAddress.at_root path h refl; bears = refl }

  pub check1 {ℓ} :
      {A : Type ℓ} (r : Result ClientError (Unit {0})) {m : Net A}
      → Sends (Admits (IsBearing c follows k)) m
      → Sends (Admits (IsBearing c follows k)) (check r m)
  check1 r h = check-Sends λ _. h

  pub check2 {ℓ} :
      {A : Type ℓ} (r s : Result ClientError (Unit {0})) {m : Net A}
      → Sends (Admits (IsBearing c follows k)) m
      → Sends (Admits (IsBearing c follows k)) (check r (check s m))
  check2 r s h = check1 r (check1 s h)

  pub from_raw-Sends {ℓ} :
      {A : Type ℓ} (api what : String) (r : Result String A) (status : ℕ)
      → Sends (Admits (IsBearing c follows k)) (from_raw api what r status)
  unfolding from_raw
  from_raw-Sends api what r status =
      if_elim (Sends (Admits (IsBearing c follows k))) (leb 400 status) (fail-Sends _)
        (decoded-Sends what r)
