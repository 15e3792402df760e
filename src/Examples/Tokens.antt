-- ===== src/Examples/Tokens.antt =====
-- The authorization server at concrete inputs.
use ocis_mcp_server.Base.{
  ◌+◌, ◌≤◌, ◌<◌, String, ◌≡◌, ◌≢◌, ◌↔◌, refl, true, some, List, [], ◌∷◌, In, arith, ok,
  ne_of_eq-false,
}
use ocis_mcp_server.Base.Bytes.{take, drop, hex_encode, hex_digit}
use ocis_mcp_server.Base.Table.{find, upsert, insert, modify}
use ocis_mcp_server.Http.{form_value}
use ocis_mcp_server.Secretbox.{seal, open_box, new_cipher}
use ocis_mcp_server.Store.Db.{Io, Store, migrate, hash_token, audit}
use ocis_mcp_server.Store.Grants.{
  tok_of, is_revoked, row_of, put_grant_at, put_grant, get_grant, unmarshal_spaces, open_tok,
  grant_of_row,
}
use ocis_mcp_server.Store.Codes.{
  fresh_code, fresh_token, put_auth_code, put_refresh, consume_auth_code, consume_refresh, use_code,
  mark_used,
}
use ocis_mcp_server.Store.Trace.{Op, updates_tokens, run}
use ocis_mcp_server.Oauth.Pkce.{verify_s256, verify_s256_iff}
use ocis_mcp_server.Oauth.Jwt.{
  AccessClaims, hs256, leeway, access_claims, sign_access, parse_access, parse_access-sign_access,
  parse_access_sound,
}
use ocis_mcp_server.Oauth.Server.{write_json}
use ocis_mcp_server.Oauth.Token.{
  token_code, check_code, issue, issue_for, issue_signed, issue_stored, signed, random_token,
  random_nonce, token_response,
}
use ocis_mcp_server.Oauth.Token.Issuing.{
  Issued, issue-Issued, CodeExchanged, token_code-CodeExchanged,
}
use ocis_mcp_server.Oauth.Token.Replay.{
  token_code_once, issued_access_accepted, issued_refresh_accepted,
}
use ocis_mcp_server.Examples.Codec.{decode_texts, dec_all}
use ocis_mcp_server.Examples.World.{plain_externals, plain_encoding, plain_jwt, plain_token}
use ocis_mcp_server.Examples.Data.{key, calm, later, with_code, server, env, exchange}

abbrev verifier : String
verifier = "verifier"

verify_s256_iff_example : (verify_s256 verifier verifier ≡ true) ↔ (verifier ≡ verifier)
verify_s256_iff_example = verify_s256_iff verifier verifier

abbrev claims : AccessClaims
claims = access_claims 1000 "iss" "aud" "ada" "g1" "mcp-1" 900 "n"

abbrev raw : String
raw = plain_token claims

signs : sign_access 1000 key "iss" "aud" "ada" "g1" "mcp-1" 900 "n" ≡ some raw
unfolding sign_access
signs = refl

parse_access-sign_access_example : parse_access 1010 key "iss" "aud" raw ≡ ok claims
parse_access-sign_access_example =
    parse_access-sign_access 1000 1010 key "iss" "aud" "ada" "g1" "mcp-1" 900 "n" raw signs
      (ne_of_eq-false "g1" "" refl) (omega arith) (omega arith)

parse_access_sound_example :
    (plain_jwt.unverified raw ≡ some (hs256, claims))
    × (plain_jwt.verify key raw ≡ true)
    × (claims.issuer ≡ "iss")
    × In "aud" claims.audience
    × (1010 < 1900 + leeway)
    × (970 ≤ 1010 + leeway)
    × (claims.grant_id ≢ "")
unfolding access_claims
parse_access_sound_example =
    parse_access_sound 1010 key "iss" "aud" raw claims parse_access-sign_access_example

exchanged : (token_code env server exchange with_code).0.status ≡ 200
unfolding token_code check_code issue issue_for issue_signed issue_stored signed random_token
    random_nonce token_response write_json verify_s256 form_value sign_access access_claims
    consume_auth_code use_code mark_used put_auth_code put_refresh put_grant put_grant_at get_grant
    grant_of_row unmarshal_spaces open_tok tok_of is_revoked row_of seal open_box new_cipher migrate
    insert find upsert modify hash_token audit hex_encode hex_digit fresh_code fresh_token take drop
    decode_texts dec_all
exchanged = refl

token_code-CodeExchanged_example : CodeExchanged env server exchange with_code
token_code-CodeExchanged_example = token_code-CodeExchanged env server exchange with_code exchanged

abbrev retries : List (Io × Op)
retries = (later, updates_tokens "g1" "new" "new" 3000) ∷ []

token_code_once_example :
    (token_code env server exchange
      (run retries (token_code env server exchange with_code).1)).0.status
    ≢ 200
token_code_once_example =
    token_code_once env server exchange with_code exchanged refl retries env exchange refl

abbrev consumed : Store
consumed = (consume_auth_code calm "code" with_code).1

issue_succeeds : (issue env server "g1" "mcp-1" consumed).0.status ≡ 200
unfolding issue issue_for issue_signed issue_stored signed random_token random_nonce token_response
    write_json sign_access access_claims consume_auth_code use_code mark_used put_auth_code
    put_refresh put_grant put_grant_at get_grant grant_of_row unmarshal_spaces open_tok tok_of
    is_revoked row_of seal open_box new_cipher migrate insert find upsert modify hash_token audit
    hex_encode hex_digit fresh_code fresh_token take drop decode_texts dec_all
issue_succeeds = refl

issued : Issued env server "g1" "mcp-1" consumed (issue env server "g1" "mcp-1" consumed)
issued = issue-Issued env server "g1" "mcp-1" consumed issue_succeeds

issued_access_accepted_example :
    (c : AccessClaims) × (parse_access 1010 key "https://mcp" "https://mcp/mcp" issued.access
      ≡ ok c)
    × (c.grant_id ≡ "g1")
    × (c.client_id ≡ "mcp-1")
    × (c.subject ≡ issued.grant.user_id)
issued_access_accepted_example =
    issued_access_accepted env server "g1" "mcp-1" consumed (issue env server "g1" "mcp-1" consumed)
      issued 1010 (ne_of_eq-false "g1" "" refl) (omega arith) (omega arith)

issued_refresh_accepted_example :
    (consume_refresh later
      (random_token (env.random 1))
      (issue env server "g1" "mcp-1" consumed).1).0
    ≡ ok (fresh_token 2593000 "g1" "mcp-1")
issued_refresh_accepted_example =
    issued_refresh_accepted env server "g1" "mcp-1" consumed
      (issue env server "g1" "mcp-1" consumed) issued later refl (omega arith)
