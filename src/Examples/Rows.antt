-- ===== src/Examples/Rows.antt =====
-- The store at concrete inputs.
use ocis_mcp_server.Base.{
  ◌+◌, ◌≡◌, ◌≢◌, refl, sym, subst, List, [], ◌∷◌, arith, ltb, if◌then◌else◌, ok, err,
}
use ocis_mcp_server.Base.Bytes.{hex_encode, hex_digit}
use ocis_mcp_server.Base.Table.{find, upsert, insert, remove}
use ocis_mcp_server.Secretbox.{seal, new_cipher}
use ocis_mcp_server.Store.Db.{Io, Store, CodeRow, RefreshRow, session_expired, migrate, hash_token}
use ocis_mcp_server.Store.Sessions.{put_session, get_session}
use ocis_mcp_server.Store.Grants.{
  put_grant_at, put_grant, get_grant, with_tokens, revoke_grant, update_ocis_tokens,
  update_interrupted,
}
use ocis_mcp_server.Store.Codes.{
  fresh_code, fresh_token, put_auth_code, put_refresh, consume_auth_code, consume_refresh, use_code,
  use_refresh,
}
use ocis_mcp_server.Store.Trace.{Op, updates_tokens, consumes_code, run}
use ocis_mcp_server.Store.Roundtrip.{get_grant-put_grant_at, get_session-put_session}
use ocis_mcp_server.Store.Revocation.{
  revoked_grant_unreadable, interrupted_write, revocation_lost_in_update,
}
use ocis_mcp_server.Store.SingleUse.Code.{consume_auth_code_once}
use ocis_mcp_server.Store.SingleUse.Refresh.{consume_refresh_once}
use ocis_mcp_server.Examples.World.{plain_externals}
use ocis_mcp_server.Examples.Data.{consent, nonce, calm, later, fresh, with_grant, with_code}

put_succeeds : (put_grant_at 0 calm consent fresh).0 ≡ ok tt
unfolding put_grant_at seal new_cipher migrate
put_succeeds = refl

get_grant-put_grant_at_example :
    get_grant later consent.id (put_grant_at 0 calm consent fresh).1 ≡ ok consent
get_grant-put_grant_at_example =
    get_grant-put_grant_at 0 calm later nonce consent fresh refl refl put_succeeds refl

session_put : (put_session calm "sid" (1 ∷ 2 ∷ []) 5 fresh).0 ≡ ok tt
unfolding put_session seal new_cipher migrate
session_put = refl

get_session-put_session_example :
    let s = (put_session calm "sid" (1 ∷ 2 ∷ []) 5 fresh).1 in
    get_session later "sid" s ≡ (
      if ltb (1000 + 5) 1010
      then (err session_expired, record s { sessions = remove "sid" s.sessions })
      else (ok (1 ∷ 2 ∷ []), s))
get_session-put_session_example =
    get_session-put_session calm later "sid" (1 ∷ 2 ∷ []) nonce 5 fresh refl refl session_put refl
      refl

abbrev code_row : CodeRow
code_row = fresh_code 1300 "g1" "mcp-1" "https://app/cb" "verifier"

code_used : (consume_auth_code later "code" with_code).0 ≡ ok code_row
unfolding consume_auth_code use_code put_auth_code put_grant put_grant_at seal new_cipher migrate
    insert find hash_token hex_encode hex_digit fresh_code upsert
code_used = refl

abbrev retries : List (Io × Op)
retries = (later, consumes_code "code") ∷ (later, updates_tokens "g1" "new" "new" 3000) ∷ []

consume_auth_code_once_example :
    (consume_auth_code later "code" (run retries (consume_auth_code later "code" with_code).1)).0
    ≢ ok code_row
consume_auth_code_once_example =
    consume_auth_code_once later "code" with_code code_row code_used refl retries later code_row

abbrev with_refresh : Store
with_refresh = (put_refresh calm "refresh" "g1" "mcp-1" 600 fresh).1

abbrev token_row : RefreshRow
token_row = fresh_token 1600 "g1" "mcp-1"

refresh_used : (consume_refresh later "refresh" with_refresh).0 ≡ ok token_row
unfolding consume_refresh use_refresh put_refresh migrate insert find hash_token hex_encode
    hex_digit fresh_token upsert
refresh_used = refl

consume_refresh_once_example :
    (consume_refresh later "refresh"
      (run retries (consume_refresh later "refresh" with_refresh).1)).0
    ≢ ok token_row
consume_refresh_once_example =
    consume_refresh_once later "refresh" with_refresh token_row refresh_used refl retries later
      token_row

revoked_grant_unreadable_example :
    get_grant later "g1" (run retries (revoke_grant calm "g1" with_grant).1) ≢ ok consent
revoked_grant_unreadable_example =
    revoked_grant_unreadable calm "g1" with_grant (omega arith) refl retries
      (omega arith, (omega arith, tt)) later consent

read_back : get_grant later "g1" with_grant ≡ ok consent
unfolding put_grant put_grant_at
read_back = get_grant-put_grant_at 0 calm later nonce consent fresh refl refl put_succeeds refl

updated :
    (update_interrupted
      (λ t. (revoke_grant calm "g1" t).1)
      later
      "g1"
      "new"
      "new"
      3000
      with_grant).0
    ≡ ok tt
unfolding put_grant put_grant_at seal new_cipher migrate revoke_grant with_tokens
updated =
    subst (λ p. p.0 ≡ ok tt)
      (sym (
        interrupted_write (λ t. (revoke_grant calm "g1" t).1) later "g1" "new" "new" 3000 with_grant
          consent read_back))
      refl

revocation_lost_in_update_example :
    (get_grant later "g1"
        (update_interrupted
          (λ t. (revoke_grant calm "g1" t).1)
          later
          "g1"
          "new"
          "new"
          3000
          with_grant).1
      ≡ ok (with_tokens consent "new" "new" 3000))
    × (update_interrupted (λ t. t) later "g1" "new" "new" 3000 with_grant
        ≡ update_ocis_tokens later "g1" "new" "new" 3000 with_grant)
    × ((update_ocis_tokens later "g1" "new" "new" 3000 (revoke_grant calm "g1" with_grant).1).0
        ≢ ok tt)
    × ((update_ocis_tokens later "g1" "new" "new" 3000 (revoke_grant calm "g1" with_grant).1).1
        ≡ (revoke_grant calm "g1" with_grant).1)
revocation_lost_in_update_example =
    revocation_lost_in_update later calm later "g1" "new" "new" 3000 nonce with_grant consent
      read_back refl refl (omega arith) refl updated refl
