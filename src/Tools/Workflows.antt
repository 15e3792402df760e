-- ===== src/Tools/Workflows.antt =====
-- internal/tools/workflows.go: the tools of several steps. What the source returns beside an error
-- is left out: the MCP library answers with the error alone.
use Prim.Native.String.{◌++◌}
use ocis_mcp_server.Base.{
  ℕ, String, Bool, true, false, not, ◌&&◌, none, some, List, [], ◌∷◌, ◌==◌, map, ltb, leb, length,
  if◌then◌else◌, Result, ok, err,
}
use ocis_mcp_server.Base.Bytes.{Bytes, take, drop}
use ocis_mcp_server.Base.Ints.{ℤ, pos, decimal}
use ocis_mcp_server.Client.{
  ClientError, Network, Client, Context, Net, and_then, check, done, fail, in_step, attempt,
  validate_id,
}
use ocis_mcp_server.Client.ClientError.{failure, quoted}
use ocis_mcp_server.Client.Errors.{error_text}
use ocis_mcp_server.Client.FileInfo.{DavResponse, DavDecoder, FileInfo, to_file_info}
use ocis_mcp_server.Client.Graph.{Decoder, get_json, list_json, post_json}
use ocis_mcp_server.Client.Payload.{content}
use ocis_mcp_server.Client.Webdav.{propfind, upload, download, search_report}
use ocis_mcp_server.Grant.Arguments.{Items}
use ocis_mcp_server.Grant.Arguments.Items.{nil, item}
use ocis_mcp_server.Grant.Arguments.Json.{text, array}
use ocis_mcp_server.Tools.Bodies.{fields, texts, invite_body, link_type}
use ocis_mcp_server.Tools.Drives.{Drive, Permission, InviteOutput}
use ocis_mcp_server.Tools.Files.{Texts, dav_path, on_path, is_text_content_type, max_text}
use ocis_mcp_server.Tools.Shares.{on_item}
use ocis_mcp_server.Tools.Spaces.{create_space_body}

pub record UploadAndShareInput : Type 0 where
  pub space_id : String
  pub path : String
  pub content : String
  pub content_type : String
  pub recipients : List String
  pub roles : List String

pub record UploadAndShareOutput : Type 0 where
  pub file_uploaded : Bool
  pub permissions : List Permission
  pub message : String

pub record CreateProjectSpaceInput : Type 0 where
  pub name : String
  pub description : String
  pub quota : ℤ
  pub members : List String
  pub member_roles : List String

pub record CreateProjectSpaceOutput : Type 0 where
  pub space : Drive
  pub permissions : List Permission
  pub message : String

pub record FindAndDownloadInput : Type 0 where
  pub pattern : String
  pub space_id : String

pub record FindAndDownloadOutput : Type 0 where
  pub file_name : String
  pub content : String
  pub content_type : String
  pub size : ℕ
  pub truncated : Bool

pub record ShareWithLinkInput : Type 0 where
  pub space_id : String
  pub item_id : String
  pub kind : String

pub record ShareWithLinkOutput : Type 0 where
  pub url : String
  pub permission : Permission

pub record GetSpaceOverviewOutput : Type 0 where
  pub space : Drive
  pub root_files : List FileInfo
  pub permissions : List Permission
  pub file_count : ℕ

-- recipients without the type that the other handlers add
unfoldable pub bare_recipients : List String → Items
bare_recipients [] = nil
bare_recipients (m ∷ rest) = item (fields (("objectId", text m) ∷ [])) (bare_recipients rest)

-- UTF-8 is not checked here, as it is for `ocis_download_file`
unfoldable pub found_output : ⦃t : Texts⦄ → DavResponse → Bytes × String → FindAndDownloadOutput
found_output ⦃t⦄ r (body, ct) =
    let name = (to_file_info r).name in
    if is_text_content_type ct && leb (length body) max_text
    then record {
      file_name = name;
      content = t.text_of_bytes body;
      content_type = ct;
      size = length body;
      truncated = false;
    }
    else if is_text_content_type ct
    then record {
      file_name = name;
      content = t.text_of_bytes (take max_text body);
      content_type = ct;
      size = length body;
      truncated = true;
    }
    else record {
      file_name = name;
      content = "[Binary file, " ++ (decimal (length body) ++ (" bytes, type: " ++ (ct ++ "]")));
      content_type = ct;
      size = length body;
      truncated = false;
    }

unfoldable pub invited_output :
    ⦃n : Network⦄ → Drive → Result ClientError InviteOutput → CreateProjectSpaceOutput
unfolding error_text
invited_output drive (err e) = record {
  space = drive;
  permissions = [];
  message = "space created but inviting members failed: " ++ error_text e;
}
invited_output drive (ok result) = record {
  space = drive;
  permissions = result.permissions;
  message = "space created with members";
}

unfoldable pub link_url : Permission → String
link_url perm = elim perm.link [ none ↦ "" | some link ↦ link.web_url ]

-- what a step gave, or nothing if it failed
unfoldable pub rows_or_none {ℓ} : {A : Type ℓ} → Result ClientError (List A) → List A
rows_or_none (ok rows) = rows
rows_or_none (err e) = []

unfoldable pub overview :
    Drive
    → Result ClientError (List DavResponse)
    → Result ClientError (List Permission)
    → GetSpaceOverviewOutput
unfolding rows_or_none
overview drive ms perms =
    let files = map to_file_info (drop 1 (rows_or_none ms)) in
    record {
      space = drive;
      root_files = files;
      permissions = rows_or_none perms;
      file_count = length files;
    }

module _ ⦃n : Network⦄ (c : Client) (ctx : Context) where
  unfoldable pub share_uploaded :
      ⦃i : Decoder InviteOutput⦄ → UploadAndShareInput → List DavResponse → Net UploadAndShareOutput
  share_uploaded input [] = fail (failure "file uploaded but file info not returned")
  share_uploaded input (r ∷ _) =
      let path =
        "/graph/v1beta1/drives/"
        ++ (input.space_id ++ ("/items/" ++ ((to_file_info r).file_id ++ "/invite"))) in
      and_then {A = InviteOutput}
        (in_step "file uploaded but sharing failed"
          (post_json c ctx path (fields (invite_body input.recipients input.roles))))
        λ result. done (record {
          file_uploaded = true;
          permissions = result.permissions;
          message = "file uploaded and shared";
        })

  unfoldable pub handle_upload_and_share :
      ⦃d : DavDecoder⦄ → ⦃i : Decoder InviteOutput⦄ → UploadAndShareInput → Net UploadAndShareOutput
  unfolding share_uploaded
  handle_upload_and_share input =
      let ct = if input.content_type == "" then "text/plain" else input.content_type in
      let path = dav_path input.space_id input.path in
      on_path input.space_id input.path (
        and_then (in_step "upload step failed" (upload c ctx path (content input.content) ct)) λ _.
          and_then
            (in_step "file uploaded but could not get file info for sharing"
              (propfind c ctx path "0"))
            (share_uploaded input))

  unfoldable pub invite_members :
      ⦃i : Decoder InviteOutput⦄ → CreateProjectSpaceInput → Drive → Net CreateProjectSpaceOutput
  unfolding bare_recipients invited_output
  invite_members input drive =
      let body =
        ("recipients", array (bare_recipients input.members))
        ∷ ("roles", array (texts input.member_roles))
        ∷ [] in
      if ltb 0 (length input.members) && ltb 0 (length input.member_roles)
      then (and_then
          (attempt (
            post_json c ctx ("/graph/v1beta1/drives/" ++ (drive.id ++ "/root/invite"))
              (fields body)))
          λ result. done (invited_output drive result))
      else done (record { space = drive; permissions = []; message = "space created" })

  unfoldable pub handle_create_project_space :
      ⦃d : Decoder Drive⦄
      → ⦃i : Decoder InviteOutput⦄ → CreateProjectSpaceInput
      → Net CreateProjectSpaceOutput
  unfolding invite_members
  handle_create_project_space input =
      and_then
        (in_step "create space step failed" (
          post_json c ctx "/graph/v1.0/drives"
            (fields (create_space_body input.name input.description input.quota))))
        (invite_members input)

  unfoldable pub download_first :
      ⦃t : Texts⦄ → FindAndDownloadInput → List DavResponse → Net FindAndDownloadOutput
  unfolding found_output
  download_first input [] = fail (quoted "no files found matching pattern " input.pattern)
  download_first input (r ∷ _) =
      and_then (in_step "download step failed" (download c ctx r.href))
        λ found. done (found_output r found)

  unfoldable pub handle_find_and_download :
      ⦃t : Texts⦄ → ⦃d : DavDecoder⦄ → FindAndDownloadInput → Net FindAndDownloadOutput
  unfolding download_first
  handle_find_and_download input =
      let path =
        if not (input.space_id == "")
        then "/dav/spaces/" ++ (input.space_id ++ "/")
        else "/dav/spaces/" in
      and_then (in_step "search step failed" (search_report c ctx path input.pattern 1 (pos 0)))
        (download_first input)

  unfoldable pub handle_share_with_link :
      ⦃d : Decoder Permission⦄ → ShareWithLinkInput → Net ShareWithLinkOutput
  unfolding link_url
  handle_share_with_link input = on_item c ctx input.space_id input.item_id (
      and_then
        (post_json c ctx
          ("/graph/v1beta1/drives/"
            ++ (input.space_id ++ ("/items/" ++ (input.item_id ++ "/createLink"))))
          (fields (("type", text (link_type input.kind)) ∷ [])))
        λ perm. done (record { url = link_url perm; permission = perm }))

  unfoldable pub handle_get_space_overview :
      ⦃d : DavDecoder⦄
      → ⦃s : Decoder Drive⦄ → ⦃p : Decoder Permission⦄ → String
      → Net GetSpaceOverviewOutput
  unfolding overview
  handle_get_space_overview space_id = check (validate_id "space_id" space_id) (
      and_then
        (in_step "get space step failed" (get_json c ctx ("/graph/v1.0/drives/" ++ space_id) []))
        λ drive. and_then (attempt (propfind c ctx (dav_path space_id "/") "1")) λ ms.
          and_then
            (attempt
              (list_json c ctx ("/graph/v1beta1/drives/" ++ (space_id ++ "/root/permissions")) []))
            λ perms. done (overview drive ms perms))
