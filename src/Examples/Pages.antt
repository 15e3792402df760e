-- ===== src/Examples/Pages.antt =====
-- A whole run of the wizard at concrete inputs.
use ocis_mcp_server.Base.{
  ℕ, ◌<◌, String, ◌≡◌, refl, Bool, true, false, Option, none, some, List, [], ◌∷◌, arith, subst,
  All, ok, length, any, keep,
}
use ocis_mcp_server.Base.Bytes.{
  Bytes, take, drop, hex_encode, hex_digit, hex_decode, hex_pair, hex_value,
}
use ocis_mcp_server.Base.Text.{
  codes, same, map_codes, lower_code, fold_code, cut, cut_cons, trim_space, drop_while,
  drop_while_end, is_space, trim_prefix, has_prefix, without_code, contains, one_of, has_some,
}
use ocis_mcp_server.Grant.Level.{Grant, parse_level, level_of_word}
use ocis_mcp_server.Http.{Request, Form, form_value, form_values}
use ocis_mcp_server.Oidc.Given.{Lists}
use ocis_mcp_server.Oidc.Ceilings.{IsOffered, accessible_spaces-IsOffered}
use ocis_mcp_server.Oidc.{
  GraphDrive, permission_roles, drive_roles, drive_ceiling, space_of_drive, spaces_of_drives,
  space_less, insert_space, sort_spaces, accessible_spaces, is_instance_admin,
}
use ocis_mcp_server.Store.Db.{migrate, hash_token, audit}
use ocis_mcp_server.Store.Grants.{get_grant, tok_of, row_of, put_grant_at, put_grant}
use ocis_mcp_server.Store.Trace.{puts_client, step}
use ocis_mcp_server.Oauth.Server.{
  Env, Libraries, session_cookie, check_mac, check_parts, read_session_cookie,
}
use ocis_mcp_server.Oauth.Token.{random_nonce, random_token}
use ocis_mcp_server.Consent.Flow.{
  unmarshal_flow-marshal, Flow, Wizard, without_hidden, with_bag, from_bag, marshal, unmarshal_flow,
  selected_spaces, csrf_ok,
}
use ocis_mcp_server.Consent.Handler.{
  Handler, Upstream, first_non_empty, chosen_level, set_level, set_levels, with_levels, allowed_ids,
  with_login, grant_of_flow, flow_of_raw, load_sid, load_flow, save_flow, new_flow, start_login,
  authorize_client, is_s256, authorize,
}
use ocis_mcp_server.Consent.Steps.{
  confirm_post, logged_in, exchange_login, callback_flow, callback, choose_spaces, spaces_post,
  choose_levels, levels_post, send_code, issue_code, give_grant, confirm_flow,
}
use ocis_mcp_server.Consent.Ceiling.{IsAllowed}
use ocis_mcp_server.Consent.Requests.{
  Call, authorizes, calls_back, chooses_spaces, chooses_levels, other, Fits, serve_all, serve,
}
use ocis_mcp_server.Consent.Reachable.{DrawsNonces}
use ocis_mcp_server.Consent.Granted.{granted_within_ceiling}
use ocis_mcp_server.Base.Table.{find, upsert, remove, insert}
use ocis_mcp_server.Grant.Roles.{
  clean_role, role_level, map_ocis_role, strongest_from, ceiling_from_roles, clamp_level,
}
use ocis_mcp_server.Secretbox.{nonce_size, new_cipher, seal, open_box}
use ocis_mcp_server.Store.Clients.{put_client, client_of_row, get_client, valid_redirect}
use ocis_mcp_server.Store.Sessions.{
  delete_row, delete_session, put_session, opened, read_row, get_session,
}
use ocis_mcp_server.Store.Codes.{fresh_code, put_auth_code}
use ocis_mcp_server.Examples.Codec.{
  of_codes, of_codes-codes, encode_texts, decode_texts, decode_texts-encode, strokes, count,
  count-strokes, dec_all,
}
use ocis_mcp_server.Examples.World.{
  plain_externals, plain_encoding, fields_of_spaces, spaces_of_fields, spaces_of_fields_of,
}
use ocis_mcp_server.Examples.Data.{key, calm, nonce, server}

abbrev bit : Bool → String
bit true = "1"
bit false = ""

abbrev bool_of : String → Bool
bool_of String.[] = false
bool_of (String.◌∷◌ c s) = true

bool_of-bit : (v : Bool) → bool_of (bit v) ≡ v
bool_of-bit true = refl
bool_of-bit false = refl

abbrev or_empty : Option (List String) → List String
or_empty none = []
or_empty (some ss) = ss

abbrev fields_of_flow : Flow → List String
fields_of_flow f =
    f.csrf
    ∷ f.client_id
    ∷ f.redirect_uri
    ∷ f.state
    ∷ f.code_challenge
    ∷ f.upstream_verifier
    ∷ f.resource
    ∷ f.user_id
    ∷ f.user_name
    ∷ strokes f.ocis_expiry_unix
    ∷ bit f.instance_admin_ok
    ∷ bit f.want_instance_adm
    ∷ encode_texts (fields_of_spaces f.spaces)
    ∷ encode_texts f.selected
    ∷ f.step
    ∷ f.tokens.access
    ∷ f.tokens.refresh
    ∷ []

abbrev flow_of_fields : List String → Option Flow
flow_of_fields
      (csrf ∷ client ∷ redirect ∷ state ∷ challenge ∷ verifier ∷ resource ∷ user ∷ name ∷ expiry
        ∷ admin ∷ want ∷ spaces ∷ selected ∷ at ∷ access ∷ refresh ∷ []) =
    some (record {
      csrf = csrf;
      client_id = client;
      redirect_uri = redirect;
      state = state;
      code_challenge = challenge;
      upstream_verifier = verifier;
      resource = resource;
      user_id = user;
      user_name = name;
      ocis_access = "";
      ocis_refresh = "";
      ocis_expiry_unix = count expiry;
      instance_admin_ok = bool_of admin;
      want_instance_adm = bool_of want;
      spaces = spaces_of_fields (or_empty (decode_texts spaces));
      selected = or_empty (decode_texts selected);
      step = at;
      tokens = record { access = access; refresh = refresh };
    })
flow_of_fields _ = none

abbrev flow_of_texts : Option (List String) → Option Flow
flow_of_texts none = none
flow_of_texts (some ss) = flow_of_fields ss

pub decode-encode_plain_flow :
    (f : Flow)
    → flow_of_texts (decode_texts (of_codes (codes (encode_texts (fields_of_flow f)))))
      ≡ some (without_hidden f)
decode-encode_plain_flow f = rw (
  of_codes-codes (encode_texts (fields_of_flow f)),
  decode_texts-encode (fields_of_flow f),
  decode_texts-encode (fields_of_spaces f.spaces),
  decode_texts-encode f.selected,
  spaces_of_fields_of f.spaces,
  count-strokes f.ocis_expiry_unix,
  bool_of-bit f.instance_admin_ok,
  bool_of-bit f.want_instance_adm,
)

instance abbrev pub plain_wizard : Wizard
plain_wizard = record {
  encode_flow = λ f. codes (encode_texts (fields_of_flow f));
  decode_flow = λ raw. flow_of_texts (decode_texts (of_codes raw));
  decode-encode_flow = decode-encode_plain_flow;
  auth_code_url = λ state challenge. state;
  with_query = λ url query. some url;
}

pub mac_bytes : (mac_key : Bytes) (s : String) → All (λ n. n < 256) (1 ∷ [])
mac_bytes mac_key s = ground arith

instance abbrev pub plain_libraries : Libraries
plain_libraries = record {
  parse_url = λ s. some (record { scheme = "https"; host = s; hostname = s; fragment = "" });
  hmac_sha256 = λ mac_key s. 1 ∷ [];
  hmac_sha256-bytes = mac_bytes;
}

abbrev handler : Handler
handler = record { oauth = server; session_ttl = 900 }

abbrev draw : ℕ → Bytes
draw n = 10 ∷ []

abbrev env : Env
env = record { io = λ k. calm; random = draw }

abbrev request : Form → Form → Request
request form query = record {
  method = "POST";
  form = form;
  is_malformed = false;
  query = query;
  cookie = some "0a.01";
  authorization = "";
}

abbrev drive : GraphDrive
drive = record {
  id = "t";
  name = "T";
  drive_type = "project";
  description = "";
  effective_roles = "editor" ∷ [];
  root = none;
}

abbrev login : Upstream
login = record {
  exchange = λ code verifier. some (record { access = "at"; refresh = "rt"; expiry = 9 });
  user_info = record { sub = "ada"; name = ""; preferred_name = ""; email = "" };
  subject = "ada";
  drives = some (record { status = 200; body = some (drive ∷ []) });
  admin_status = some 403;
}

abbrev calls : List (Env × Call)
calls =
    (
      env,
      other (
          puts_client
            (record { id = "c"; name = "C"; secret_hash = ""; redirect_uris = "u" ∷ [] })),
    )
    ∷ (
      env,
      authorizes
          (request [] (("client_id", "c") ∷ ("redirect_uri", "u") ∷ ("code_challenge", "v") ∷ [])),
    )
    ∷ (env, calls_back login (request [] (("code", "k") ∷ ("state", "0a") ∷ [])))
    ∷ (env, chooses_spaces (request (("csrf", "0a") ∷ ("space", "t") ∷ []) []))
    ∷ (env, chooses_levels (request (("csrf", "0a") ∷ ("level_t", "admin") ∷ []) []))
    ∷ []

abbrev last_page : Request
last_page = request (("csrf", "0a") ∷ []) []

nonces_fit : (k : ℕ) → DrawsNonces (env.io k)
nonces_fit k n e = let same : nonce ≡ n = cc e in subst (λ v. length v ≡ nonce_size) same refl

-- the one drive that the answer lists
abbrev Answered : GraphDrive → Type 0
Answered d = drive ≡ d

lists : Lists Answered login.drives
lists drives e = let same : drive ∷ [] ≡ drives = cc e in subst (All Answered) same (refl, tt)

fits : All (Fits Answered) calls
fits = (tt, (nonces_fit, ((nonces_fit, lists), (nonces_fit, (nonces_fit, tt)))))

confirms_it :
    (confirm_post env handler last_page (serve_all handler calls (migrate key))).0.status ≡ 302
unfolding take drop hex_encode hex_digit hex_decode hex_pair hex_value find upsert remove insert
    same map_codes lower_code fold_code cut cut_cons trim_space drop_while drop_while_end is_space
    trim_prefix has_prefix without_code contains one_of has_some any keep parse_level level_of_word
    clean_role role_level map_ocis_role strongest_from ceiling_from_roles clamp_level form_value
    form_values permission_roles drive_roles drive_ceiling space_of_drive spaces_of_drives
    space_less insert_space sort_spaces accessible_spaces is_instance_admin new_cipher seal open_box
    migrate hash_token audit put_client client_of_row get_client valid_redirect delete_row
    delete_session put_session opened read_row get_session tok_of row_of put_grant_at put_grant
    fresh_code put_auth_code step session_cookie check_mac check_parts read_session_cookie
    random_nonce random_token with_bag from_bag marshal unmarshal_flow selected_spaces csrf_ok
    first_non_empty chosen_level set_level set_levels with_levels allowed_ids with_login
    grant_of_flow flow_of_raw load_sid load_flow save_flow new_flow start_login authorize_client
    is_s256 authorize logged_in exchange_login callback_flow callback choose_spaces spaces_post
    choose_levels levels_post send_code issue_code give_grant confirm_flow confirm_post serve
    serve_all decode_texts dec_all
confirms_it = refl

granted_within_ceiling_example :
    (g : Grant) × (get_grant calm
        (random_nonce (draw 0))
        (confirm_post env handler last_page (serve_all handler calls (migrate key))).1
      ≡ ok g)
    × All (IsAllowed Answered) g.spaces
granted_within_ceiling_example =
    granted_within_ceiling Answered key handler calls fits env last_page nonce calm refl refl refl
      confirms_it

accessible_spaces-IsOffered_example : All IsOffered (
    record {
      id = "t";
      name = "T";
      drive_type = "project";
      level = 0;
      ceiling = 2;
      description = "";
    }
    ∷ [])
unfolding accessible_spaces sort_spaces insert_space spaces_of_drives space_of_drive drive_ceiling
    drive_roles ceiling_from_roles strongest_from map_ocis_role role_level clean_role map_codes
    lower_code trim_space drop_while drop_while_end is_space trim_prefix has_prefix without_code
    contains one_of has_some same
accessible_spaces-IsOffered_example =
    accessible_spaces-IsOffered login.drives
      (record {
        id = "t";
        name = "T";
        drive_type = "project";
        level = 0;
        ceiling = 2;
        description = "";
      }
        ∷ [])
      refl

abbrev first_flow : Flow
first_flow = new_flow env last_page

unmarshal_flow-marshal_example : unmarshal_flow (marshal first_flow) ≡ some (with_bag first_flow)
unmarshal_flow-marshal_example = unmarshal_flow-marshal first_flow
