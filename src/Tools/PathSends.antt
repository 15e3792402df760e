-- ===== src/Tools/PathSends.antt =====
-- What the tools of internal/tools/files.go that name a space and a path send.
use Prim.Native.String.{◌++◌}
use ocis_mcp_server.Base.{All, ◌≡◌, String, List, [], ◌∷◌, Result, ok, err, if_elim}
use ocis_mcp_server.Base.Bytes.{Bytes}
use ocis_mcp_server.Client.{
  ClientError, Network, Client, Context, Net, and_then, done, fail, validate_path,
}
use ocis_mcp_server.Client.Admits.{Admits, credential}
use ocis_mcp_server.Client.Calls.{
  At, propfind-Sends, mkcol-Sends, upload-Sends, download-Sends, transfer-Sends,
  webdav_delete-Sends, proppatch-Sends,
}
use ocis_mcp_server.Client.FileInfo.{DavResponse, DavDecoder}
use ocis_mcp_server.Client.Sends.{Sends, done-Sends, fail-Sends, and_then-Sends, check-Sends}
use ocis_mcp_server.Client.Webdav.{move, copy}
use ocis_mcp_server.Tools.Calls.{PathCall}
use ocis_mcp_server.Tools.Calls.PathCall.{
  list_files, get_file_info, create_folder, upload_file, download_file, move_file, copy_file,
  delete_file, tag_resource, untag_resource,
}
use ocis_mcp_server.Tools.FileReads.{handle_list_files, first_info, handle_get_file_info}
use ocis_mcp_server.Tools.Files.{
  Texts, UploadFileInput, dav_path, on_path, decoded_content, upload_content, handle_create_folder,
  handle_upload_file, handle_download_file, handle_move_file, handle_copy_file, handle_delete_file,
  handle_tag_resource, handle_untag_resource,
}
use ocis_mcp_server.Tools.Serve.{quiet, serve_path}

-- the space that the input names
unfoldable pub call_space : PathCall → String
call_space (list_files input) = input.space_id
call_space (get_file_info input) = input.space_id
call_space (create_folder input) = input.space_id
call_space (upload_file input) = input.space_id
call_space (download_file input) = input.space_id
call_space (move_file input) = input.space_id
call_space (copy_file input) = input.space_id
call_space (delete_file input) = input.space_id
call_space (tag_resource input) = input.space_id
call_space (untag_resource input) = input.space_id

-- the paths that the input names
unfoldable pub call_paths : PathCall → List String
call_paths (list_files input) = input.path ∷ []
call_paths (get_file_info input) = input.path ∷ []
call_paths (create_folder input) = input.path ∷ []
call_paths (upload_file input) = input.path ∷ []
call_paths (download_file input) = input.path ∷ []
call_paths (move_file input) = input.source_path ∷ input.dest_path ∷ []
call_paths (copy_file input) = input.source_path ∷ input.dest_path ∷ []
call_paths (delete_file input) = input.path ∷ []
call_paths (tag_resource input) = input.path ∷ []
call_paths (untag_resource input) = input.path ∷ []

module _ {Q : String → String → String → Type 0} ⦃n : Network⦄ where
  -- a call whose answer only passes through
  pub finish {ℓ κ} :
      {A : Type ℓ} {B : Type κ} {m : Net A} (f : A → B)
      → Sends (Admits Q) m
      → Sends (Admits Q) (and_then m (λ a. done (f a)))
  finish f h = and_then-Sends h λ a. done-Sends (f a)

  pub quiet-Sends {ℓ} : {A : Type ℓ} {m : Net A} → Sends (Admits Q) m → Sends (Admits Q) (quiet m)
  unfolding quiet
  quiet-Sends h = and_then-Sends h λ _. done-Sends tt

  pub on_path-Sends {ℓ} :
      {A : Type ℓ} (space_id path : String) {m : Net A}
      → (validate_path path ≡ ok tt → Sends (Admits Q) m)
      → Sends (Admits Q) (on_path space_id path m)
  unfolding on_path
  on_path-Sends space_id path f = check-Sends λ _. check-Sends f

  pub first_info-Sends :
      (c : Client) (ctx : Context) (ms : List DavResponse) (e : ClientError)
      → Sends (Admits Q) (first_info c ctx ms (fail e))
  unfolding first_info
  first_info-Sends c ctx [] e = fail-Sends e
  first_info-Sends c ctx (r ∷ _) e = done-Sends _

  decoded_content-Sends :
      (c : Client) (ctx : Context) (r : Result String Bytes)
      → Sends (Admits Q) (decoded_content c ctx r)
  unfolding decoded_content
  decoded_content-Sends c ctx (ok body) = done-Sends _
  decoded_content-Sends c ctx (err e) = fail-Sends _

  upload_content-Sends :
      ⦃t : Texts⦄ (c : Client) (ctx : Context) (input : UploadFileInput)
      → Sends (Admits Q) (upload_content c ctx input)
  unfolding upload_content
  upload_content-Sends ⦃t⦄ c ctx input =
      if_elim (Sends (Admits Q)) input.base64
        (decoded_content-Sends c ctx (t.decode_base64 input.content)) (done-Sends _)

-- The predicate holds of every address in the space, under such a path that the check lets through.
pub record IsOpen ⦃n : Network⦄ (Q : String → String → String → Type 0) (P : String → Type 0)
    (c : Client) (ctx : Context) (space_id : String) : Type 0 where
  pub one : (p : String) → P p → validate_path p ≡ ok tt → At Q c ctx (dav_path space_id p)
  pub two :
      (p q : String)
      → P p
      → P q
      → validate_path p ≡ ok tt
      → validate_path q ≡ ok tt
      → Q (c.base_url ++ dav_path space_id p) (c.base_url ++ dav_path space_id q) (credential c ctx)

module _ {Q : String → String → String → Type 0} {P : String → Type 0} ⦃n : Network⦄
    ⦃dav : DavDecoder⦄ ⦃t : Texts⦄ (c : Client) (ctx : Context) where
  pub serve_path-Sends :
      (call : PathCall)
      → All P (call_paths call)
      → IsOpen Q P c ctx (call_space call)
      → Sends (Admits Q) (serve_path c ctx call)
  unfolding serve_path call_space call_paths handle_list_files handle_get_file_info
      handle_create_folder handle_upload_file handle_download_file handle_move_file handle_copy_file
      handle_delete_file handle_tag_resource handle_untag_resource move copy
  serve_path-Sends (list_files input) (a, _) h =
      quiet-Sends
        (on_path-Sends _ _ λ v. finish _ (propfind-Sends c ctx _ "1" (h.one input.path a v)))
  serve_path-Sends (get_file_info input) (a, _) h = quiet-Sends (
      on_path-Sends _ _ λ v.
        and_then-Sends (propfind-Sends c ctx _ "0" (h.one input.path a v))
          λ ms. first_info-Sends c ctx ms _)
  serve_path-Sends (create_folder input) (a, _) h =
      quiet-Sends (on_path-Sends _ _ λ v. finish _ (mkcol-Sends c ctx _ (h.one input.path a v)))
  serve_path-Sends (upload_file input) (a, _) h = quiet-Sends (
      on_path-Sends _ _ λ v.
        and_then-Sends (upload_content-Sends c ctx input)
          λ body. finish _ (upload-Sends c ctx _ body _ (h.one input.path a v)))
  serve_path-Sends (download_file input) (a, _) h =
      quiet-Sends (on_path-Sends _ _ λ v. finish _ (download-Sends c ctx _ (h.one input.path a v)))
  serve_path-Sends (move_file input) (a, (b, _)) h = quiet-Sends (
      on_path-Sends _ _ λ v. check-Sends λ u. finish _ (
        transfer-Sends c ctx "MOVE" _ _ input.overwrite
          (h.two input.source_path input.dest_path a b v u)))
  serve_path-Sends (copy_file input) (a, (b, _)) h = quiet-Sends (
      on_path-Sends _ _ λ v. check-Sends λ u. finish _ (
        transfer-Sends c ctx "COPY" _ _ input.overwrite
          (h.two input.source_path input.dest_path a b v u)))
  serve_path-Sends (delete_file input) (a, _) h = quiet-Sends (
      check-Sends
        λ _. on_path-Sends _ _ λ v. finish _ (webdav_delete-Sends c ctx _ (h.one input.path a v)))
  serve_path-Sends (tag_resource input) (a, _) h =
      quiet-Sends
        (on_path-Sends _ _ λ v. finish _ (proppatch-Sends c ctx _ _ (h.one input.path a v)))
  serve_path-Sends (untag_resource input) (a, _) h =
      quiet-Sends
        (on_path-Sends _ _ λ v. finish _ (proppatch-Sends c ctx _ _ (h.one input.path a v)))
