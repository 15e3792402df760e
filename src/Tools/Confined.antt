-- ===== src/Tools/Confined.antt =====
-- The requests of the tools of internal/tools/files.go that name a space and a path, against that
-- space and the check of the grant (internal/grant, internal/httpapi).
use Prim.Native.Char.{code}
use Prim.Native.String.{◌++◌}
use ocis_mcp_server.Base.{
  ℕ, ◌≡◌, ◌≢◌, refl, subst, ◌⊎◌, inl, inr, false, String, some, List, [], ◌==◌, eq-false, nat_eq,
  All, ok, Bool-cases, arith, if◌then◌else◌,
}
use ocis_mcp_server.Base.Text.{Lacks, codes, has_prefix, contains, trim_left}
use ocis_mcp_server.Client.{Network, Wire, Client, auth_from, grant_context, validate_path}
use ocis_mcp_server.Client.Admits.{Admits, credential}
use ocis_mcp_server.Client.Escape.{path_escape}
use ocis_mcp_server.Client.FileInfo.{DavDecoder}
use ocis_mcp_server.Client.Texts.{path_escape-IsSegment}
use ocis_mcp_server.Grant.Arguments.{RawMessage}
use ocis_mcp_server.Grant.Catalog.{allow, target_space, tool_need}
use ocis_mcp_server.Grant.Enforcement.{Covers, allow_iff}
use ocis_mcp_server.Grant.Level.{Grant}
use ocis_mcp_server.Httpapi.{check_call}
use ocis_mcp_server.Tools.Calls.{PathCall}
use ocis_mcp_server.Tools.Names.{path_tool}
use ocis_mcp_server.Tools.Calls.PathCall.{
  list_files, get_file_info, create_folder, upload_file, download_file, move_file, copy_file,
  delete_file, tag_resource, untag_resource,
}
use ocis_mcp_server.Tools.Files.{Texts, dav_path}
use ocis_mcp_server.Tools.PathSends.{IsOpen, call_space, call_paths, serve_path-Sends}
use ocis_mcp_server.Tools.Serve.{serve_path}

-- A path without "%", "?" and "#": it stands in a URL as it is.
pub record IsPlain (path : String) : Type 0 where
  pub no_escape : Lacks b'%' path
  pub no_query : Lacks b'?' path
  pub no_fragment : Lacks b'#' path

-- A space ID that is no dot segment of a path.
pub record IsName (space_id : String) : Type 0 where
  pub not_here : space_id ≢ "."
  pub not_up : space_id ≢ ".."

-- The address is one of the space: behind the base URL and the space's segment, which is no dot
-- segment and ends at the slash, comes a path without ".." and without anything that a URL reads as
-- ".." (an escape), or as the end of the path (a query or a fragment).
pub record IsUnder (c : Client) (space_id url : String) : Type 0 where
  pub rest : String
  pub address : url ≡ c.base_url ++ ("/dav/spaces/" ++ (path_escape space_id ++ ("/" ++ rest)))
  pub no_step_up : contains (codes rest) (codes "..") ≡ false
  pub plain : IsPlain rest
  pub name : IsName space_id
  pub segment :
      Lacks b'/' (path_escape space_id)
      × (Lacks b'?' (path_escape space_id) × Lacks b'#' (path_escape space_id))

-- Its URL, and its destination if it has one, are addresses of the space, and it bears the token.
pub record IsConfined (c : Client) (space_id token url dest authorization : String) : Type 0 where
  pub at_url : IsUnder c space_id url
  pub at_dest : (dest ≡ "") ⊎ IsUnder c space_id dest
  pub bears : authorization ≡ "Bearer " ++ token

trim_left-contains :
    (a : ℕ) (s : String) (q : List ℕ)
    → contains (codes s) q ≡ false
    → contains (codes (trim_left a s)) q ≡ false
unfolding trim_left contains
trim_left-contains a String.[] q h = h
trim_left-contains a (String.◌∷◌ c s) q h = elim (Bool-cases (nat_eq (code c) a)) [
  | inl e ↦ rw e (trim_left-contains a s q (ground arith))
  | inr e ↦ rw e h
]

trim_left-Lacks : (a b : ℕ) (s : String) → Lacks b s → Lacks b (trim_left a s)
unfolding trim_left
trim_left-Lacks a b String.[] h = tt
trim_left-Lacks a b (String.◌∷◌ c s) h = elim (Bool-cases (nat_eq (code c) a)) [
  | inl e ↦ rw e (trim_left-Lacks a b s h.1)
  | inr e ↦ rw e h
]

trim_left-IsPlain : (a : ℕ) (path : String) → IsPlain path → IsPlain (trim_left a path)
trim_left-IsPlain a path h = record {
  no_escape = trim_left-Lacks a b'%' path h.no_escape;
  no_query = trim_left-Lacks a b'?' path h.no_query;
  no_fragment = trim_left-Lacks a b'#' path h.no_fragment;
}

validate_path-contains :
    (p : String) → validate_path p ≡ ok tt → contains (codes p) (codes "..") ≡ false
unfolding validate_path
validate_path-contains p h = elim (Bool-cases (contains (codes p) (codes ".."))) [
  | inl e ↦ ground (arith, e, h)
  | inr e ↦ e
]

dav_path-IsUnder :
    (c : Client) (space_id p : String)
    → IsName space_id
    → IsPlain p
    → validate_path p ≡ ok tt
    → IsUnder c space_id (c.base_url ++ dav_path space_id p)
unfolding dav_path contains has_prefix
dav_path-IsUnder c space_id p name plain h =
    let rest = trim_left b'/' p in
    let one = path_escape-IsSegment space_id in
    let clean = trim_left-contains b'/' p (codes "..") (validate_path-contains p h) in
    elim (Bool-cases (rest == "")) [
      | inl e ↦ record {
        rest = "";
        address = rw e refl;
        no_step_up = refl;
        plain = record { no_escape = tt; no_query = tt; no_fragment = tt };
        name = name;
        segment = one;
      }
      | inr e ↦ record {
        rest = rest;
        address = rw e refl;
        no_step_up = clean;
        plain = trim_left-IsPlain b'/' p plain;
        name = name;
        segment = one;
      }
    ]

path_tool-named : (call : PathCall) → (path_tool call == "") ≡ false
unfolding path_tool
path_tool-named (list_files _) = refl
path_tool-named (get_file_info _) = refl
path_tool-named (create_folder _) = refl
path_tool-named (upload_file _) = refl
path_tool-named (download_file _) = refl
path_tool-named (move_file _) = refl
path_tool-named (copy_file _) = refl
path_tool-named (delete_file _) = refl
path_tool-named (tag_resource _) = refl
path_tool-named (untag_resource _) = refl

-- nothing sent yet
abbrev pub new_wire : Wire
new_wire = record { sent = []; slept = [] }

pub grant_credential :
    ⦃n : Network⦄ (c : Client) (g : Grant)
    → g.ocis_access ≢ ""
    → credential c (grant_context g) ≡ "Bearer " ++ g.ocis_access
unfolding credential auth_from grant_context
grant_credential c g h = rw (eq-false g.ocis_access "" h, credential, auth_from) refl

module _ ⦃n : Network⦄ ⦃dav : DavDecoder⦄ ⦃t : Texts⦄ (c : Client) where
  IsConfined-IsOpen :
      (g : Grant) (space_id : String)
      → g.ocis_access ≢ ""
      → IsName space_id
      → IsOpen (IsConfined c space_id g.ocis_access) IsPlain c (grant_context g) space_id
  IsConfined-IsOpen g space_id h name = record {
    one = λ p a v. record {
      at_url = dav_path-IsUnder c space_id p name a v;
      at_dest = inl refl;
      bears = grant_credential c g h;
    };
    two = λ p q a b v u. record {
      at_url = dav_path-IsUnder c space_id p name a v;
      at_dest = inr (dav_path-IsUnder c space_id q name b u);
      bears = grant_credential c g h;
    };
  }

  -- A call of a tool that names a space and a path, under a grant with a token of oCIS, whose space ID
  -- is neither "." nor ".." and whose paths have no "%", "?" or "#" (the code checks neither): if the
  -- check lets the call pass, with arguments that name the space of the input, then the grant covers
  -- the tool's need on that space, and every request that the call sends, retries included, bears the
  -- token of the grant and has as its URL (and the destination of a move or copy) the space's own
  -- address with a path behind it that has no ".." and no "%", "?" or "#".
  pub accepted_call-Confined :
      (g : Grant) (call : PathCall) (arguments : RawMessage)
      → g.ocis_access ≢ ""
      → IsName (call_space call)
      → All IsPlain (call_paths call)
      → target_space arguments ≡ call_space call
      → check_call (some g) (path_tool call) arguments ≡ ok tt
      → Covers g (call_space call) (tool_need (path_tool call))
        × All
            (Admits (IsConfined c (call_space call) g.ocis_access))
            (serve_path c (grant_context g) call new_wire).1.sent
  unfolding check_call
  accepted_call-Confined g call arguments h name plain same passed = (
    subst (λ s. Covers g s (tool_need (path_tool call))) same
        ((allow_iff g (path_tool call) arguments).0 (
          subst (λ b. (if b then ok tt else allow (some g) (path_tool call) arguments) ≡ ok tt)
            (path_tool-named call) passed)),
    (serve_path-Sends c (grant_context g) call plain
          (IsConfined-IsOpen g (call_space call) h name)).kept
        new_wire tt,
  )
