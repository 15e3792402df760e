-- ===== src/Examples/Network.antt =====
-- A server that is busy at first, and the theorems on the client and the tools at concrete inputs.
use Prim.Native.String.{◌++◌}
use ocis_mcp_server.Client.Escape.{xml_escape}
use ocis_mcp_server.Base.{
  ℕ, ◌+◌, ◌≡◌, ◌≢◌, ◌↔◌, refl, Bool, true, false, String, none, some, List, [], ◌∷◌, All, any, In,
  ne_of_eq-false, arith, Result, ok, err,
}
use ocis_mcp_server.Base.Text.{Lacks, map_codes, fold_code, same}
use ocis_mcp_server.Client.{HttpRequest, HttpResponse, Network, Client, grant_context}
use ocis_mcp_server.Client.Admits.{Admits}
use ocis_mcp_server.Client.Attempts.{
  Ends, IsReplayable, IsBounded, do_request-Ends, do_request-IsBounded,
}
use ocis_mcp_server.Client.ClientError.{failure}
use ocis_mcp_server.Base.Ints.{pos}
use ocis_mcp_server.Client.Bodies.{count, bodies-SameTags}
use ocis_mcp_server.Client.Names.{name_from_href-last}
use ocis_mcp_server.Client.Webdav.{search_body, proppatch_body}
use ocis_mcp_server.Client.FileInfo.{DavDecoder, name_from_href}
use ocis_mcp_server.Client.Graph.{Decoder}
use ocis_mcp_server.Client.Payload.{empty}
use ocis_mcp_server.Client.Retry.{clone_request_for_attempt, do_request}
use ocis_mcp_server.Grant.Arguments.{
  unmarshal_args, store_members, store_member, names_field, store_text,
}
use ocis_mcp_server.Grant.Catalog.{tool_need, target_space, allow, allow_for, allow_need, listed}
use ocis_mcp_server.Grant.Enforcement.{Covers}
use ocis_mcp_server.Grant.Level.{Grant, space_level, first_level, at_least}
use ocis_mcp_server.Httpapi.{check_call}
use ocis_mcp_server.Tools.Annotations.{annotations}
use ocis_mcp_server.Tools.Hints.{destructive_hint_iff}
use ocis_mcp_server.Tools.Bearing.Steps.{IsBearing}
use ocis_mcp_server.Tools.Calls.{PathCall, ToolCall}
use ocis_mcp_server.Tools.Names.{path_tool, tool_name}
use ocis_mcp_server.Tools.Calls.PathCall.{create_folder, list_files}
use ocis_mcp_server.Tools.Calls.ToolCall.{path_call, space_call}
use ocis_mcp_server.Tools.Calls.SpaceCall.{delete_space}
use ocis_mcp_server.Tools.Confined.{IsConfined, IsPlain, IsName, new_wire, accepted_call-Confined}
use ocis_mcp_server.Tools.Confirmation.{Asks, unconfirmed-nothing_sent}
use ocis_mcp_server.Tools.Drives.{
  Drive, Permission, InviteOutput, SharedItem, SharingRole, filter_granted_drives,
}
use ocis_mcp_server.Tools.FileReads.{ResourceMetadataOutput}
use ocis_mcp_server.Tools.Files.{Texts}
use ocis_mcp_server.Tools.Granted.{MaySee, filter_granted_drives_iff}
use ocis_mcp_server.Tools.Groups.{Group}
use ocis_mcp_server.Tools.PathSends.{call_space, call_paths}
use ocis_mcp_server.Tools.Serve.{serve_tool, serve_path}
use ocis_mcp_server.Tools.Resources.{read_resource, VersionEnvelope}
use ocis_mcp_server.Tools.Resources.Resource.{sharing_roles}
use ocis_mcp_server.Tools.ResourceReads.{read_resource-Bearing}
use ocis_mcp_server.Tools.Readers.{reader_calls_read_only}
use ocis_mcp_server.Tools.Notifications.{OcsNotificationsResponse}
use ocis_mcp_server.Tools.AppTokens.{AppToken}
use ocis_mcp_server.Tools.Settings.{
  SettingsRolesResponse, SettingsAssignment, SettingsAssignmentsResponse,
}
use ocis_mcp_server.Tools.Admin.{OcsCapabilitiesResponse}
use ocis_mcp_server.Tools.Ocm.{OcmProvider, OcmShare}
use ocis_mcp_server.Tools.Education.{EducationSchool, EducationUser}
use ocis_mcp_server.Tools.Users.{User}
use ocis_mcp_server.Examples.Access.{loaded}
use ocis_mcp_server.Examples.Data.{consent, on_home}

abbrev busy : HttpResponse
busy = record { status = 429; headers = ("Retry-After", "7") ∷ []; body = []; cut_off = none }

abbrev created : HttpResponse
created = record { status = 201; headers = []; body = []; cut_off = none }

-- the first request is answered 429
abbrev answers : List HttpRequest → Result String HttpResponse
answers [] = ok created
answers (r ∷ []) = ok busy
answers (r ∷ s ∷ rest) = ok created

instance abbrev busy_network : Network
busy_network = record {
  transport = answers;
  url_error = λ url. none;
  until = λ sent date. none;
  error_message = λ body. none;
  ocs_message = λ body. none;
  basic_auth = λ user password. "Basic " ++ user;
  quote = λ s. s;
}

instance abbrev plain_dav : DavDecoder
plain_dav = record { decode_multi_status = λ body. ok [] }

instance abbrev plain_texts : Texts
plain_texts = record {
  decode_base64 = λ s. err "not base64";
  valid_utf8 = λ body. true;
  text_of_bytes = λ body. "";
}

abbrev no_decoder {ℓ} : {A : Type ℓ} → Decoder A
no_decoder = record { decode = λ body. err "no JSON"; decode_list = λ body. ok [] }

instance abbrev drives : Decoder Drive
drives = no_decoder

instance abbrev permissions : Decoder Permission
permissions = no_decoder

instance abbrev invites : Decoder InviteOutput
invites = no_decoder

instance abbrev items : Decoder SharedItem
items = no_decoder

instance abbrev roles : Decoder (List SharingRole)
roles = no_decoder

instance abbrev users : Decoder User
users = no_decoder

instance abbrev groups : Decoder Group
groups = no_decoder

instance abbrev metadata : Decoder ResourceMetadataOutput
metadata = no_decoder

instance abbrev notifications : Decoder OcsNotificationsResponse
notifications = no_decoder

instance abbrev app_token : Decoder AppToken
app_token = no_decoder

instance abbrev app_tokens : Decoder (List AppToken)
app_tokens = no_decoder

instance abbrev settings_roles : Decoder SettingsRolesResponse
settings_roles = no_decoder

instance abbrev assignment : Decoder SettingsAssignment
assignment = no_decoder

instance abbrev assignments : Decoder SettingsAssignmentsResponse
assignments = no_decoder

instance abbrev capabilities : Decoder OcsCapabilitiesResponse
capabilities = no_decoder

instance abbrev version_envelope : Decoder VersionEnvelope
version_envelope = no_decoder

instance abbrev providers : Decoder (List OcmProvider)
providers = no_decoder

instance abbrev ocm_share : Decoder OcmShare
ocm_share = no_decoder

instance abbrev ocm_shares : Decoder (List OcmShare)
ocm_shares = no_decoder

instance abbrev schools : Decoder EducationSchool
schools = no_decoder

instance abbrev education_users : Decoder EducationUser
education_users = no_decoder

abbrev ocis : Client
ocis = record { base_url = "https://ocis"; cfg = loaded }

abbrev request : HttpRequest
request = record {
  method = "MKCOL";
  url = "https://ocis/dav/spaces/home/docs";
  query = [];
  headers = [];
  body = empty;
}

replayable : IsReplayable request
unfolding clone_request_for_attempt
replayable = refl

do_request-Ends_example :
    Ends request 3 new_wire (do_request request new_wire).0 (do_request request new_wire).1
do_request-Ends_example = do_request-Ends request new_wire replayable

do_request-IsBounded_example :
    IsBounded 3 new_wire (do_request request new_wire).0 (do_request request new_wire).1
do_request-IsBounded_example = do_request-IsBounded request new_wire

has_token : consent.ocis_access ≢ ""
has_token = ne_of_eq-false "at" "" refl

abbrev new_folder : PathCall
new_folder = create_folder (record { space_id = "home"; path = "/docs/2024" })

named : target_space on_home ≡ call_space new_folder
unfolding target_space call_space unmarshal_args store_members store_member names_field store_text
    map_codes fold_code same
named = refl

passed : check_call (some consent) (path_tool new_folder) on_home ≡ ok tt
unfolding check_call path_tool allow allow_for allow_need tool_need listed any target_space
    unmarshal_args store_members store_member names_field store_text map_codes fold_code same
    at_least space_level first_level
passed = refl

space_named : IsName (call_space new_folder)
unfolding call_space
space_named = record {
  not_here = ne_of_eq-false "home" "." refl;
  not_up = ne_of_eq-false "home" ".." refl;
}

paths-IsPlain : All IsPlain (call_paths new_folder)
unfolding call_paths
paths-IsPlain =
    (record { no_escape = ground arith; no_query = ground arith; no_fragment = ground arith }, tt)

accepted_call-Confined_example :
    Covers consent (call_space new_folder) (tool_need (path_tool new_folder))
    × All
        (Admits (IsConfined ocis (call_space new_folder) "at"))
        (serve_path ocis (grant_context consent) new_folder new_wire).1.sent
accepted_call-Confined_example =
    accepted_call-Confined ocis consent new_folder on_home has_token space_named paths-IsPlain named
      passed

abbrev unconfirmed : ToolCall
unconfirmed = space_call (delete_space (record { space_id = "home"; confirm = false }))

unconfirmed-nothing_sent_example :
    serve_tool ocis (grant_context consent) unconfirmed new_wire
    ≡ (err (failure "this is a destructive operation. Set confirm=true to proceed"), new_wire)
unconfirmed-nothing_sent_example =
    unconfirmed-nothing_sent ocis (grant_context consent) unconfirmed new_wire
      (Asks.deleted (record { space_id = "home"; confirm = false }))

abbrev drive_of : String → Drive
drive_of id = record {
  id = id;
  name = id;
  drive_type = "project";
  description = "";
  web_url = "";
  owner = none;
  quota = none;
  root = none;
  created_by = none;
  special = [];
}

abbrev all_drives : List Drive
all_drives = drive_of "home" ∷ drive_of "other" ∷ []

filter_granted_drives_iff_example :
    In (drive_of "home") (filter_granted_drives (grant_context consent) all_drives)
    ↔ (In (drive_of "home") all_drives × MaySee "home" (grant_context consent).grant)
filter_granted_drives_iff_example =
    filter_granted_drives_iff (grant_context consent) (drive_of "home") all_drives

docs_segment : Lacks b'/' "docs"
docs_segment = ground arith

name_from_href-last_example : name_from_href "/dav/spaces/home/docs//" ≡ "docs"
name_from_href-last_example =
    name_from_href-last "/dav/spaces/home" "/" "d" "ocs" "//" refl docs_segment (refl, (refl, tt))

bodies-SameTags_example :
    ((a : ℕ)
      → count a (search_body "</oc:pattern>" 50 (pos 0))
        ≡ count a (search_body "" 50 (pos 0)) + count a (xml_escape "</oc:pattern>"))
    × (count b'<' (xml_escape "</oc:pattern>") ≡ 0)
    × (count b'<' (proppatch_body (("oc:tags", "<a/>") ∷ []))
        ≡ count b'<' (proppatch_body (("oc:tags", "") ∷ [])))
bodies-SameTags_example = bodies-SameTags "</oc:pattern>" 50 (pos 0) (("oc:tags", "<a/>") ∷ [])

destructive_hint_iff_example :
    ((annotations unconfirmed).destructive_hint ≡ true) ↔ ((b : Bool) × Asks unconfirmed b)
destructive_hint_iff_example = destructive_hint_iff unconfirmed

-- a consent that only allows to read one space
abbrev visitor : Grant
visitor = record consent {
  spaces =
      record {
        id = "home";
        name = "Home";
        drive_type = "personal";
        level = 1;
        ceiling = 3;
        description = "";
      }
      ∷ [];
}

abbrev listing : ToolCall
listing = path_call (list_files (record { space_id = "home"; path = "/" }))

listing_passed : check_call (some visitor) (tool_name listing) on_home ≡ ok tt
unfolding check_call tool_name path_tool allow allow_for allow_need tool_need listed any
    target_space unmarshal_args store_members store_member names_field store_text map_codes
    fold_code same at_least space_level first_level
listing_passed = refl

reader_calls_read_only_example : (annotations listing).read_only_hint ≡ true
reader_calls_read_only_example =
    reader_calls_read_only visitor listing on_home refl (ground arith) listing_passed

read_resource-Bearing_example :
    All
      (Admits (IsBearing ocis false "Bearer at"))
      (read_resource ocis (grant_context consent) sharing_roles new_wire).1.sent
read_resource-Bearing_example = read_resource-Bearing ocis consent sharing_roles has_token
