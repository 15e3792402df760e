-- ===== src/Client/FileInfo.antt =====
-- internal/client/webdav.go, the types of an answer, and `ToFileInfo`.
use Prim.Native.Char.{code}
use ocis_mcp_server.Base.{
  ℕ, String, Bool, false, not, List, [], ◌∷◌, Option, none, some, ◌==◌, nat_eq, if◌then◌else◌,
  Result,
}
use ocis_mcp_server.Base.Bytes.{Bytes}
use ocis_mcp_server.Base.Ints.{ℤ, pos, negsuc}
use ocis_mcp_server.Base.Text.{codes, contains, trim_right}

pub record Prop : Type 0 where
  -- `ResourceType.Collection` is there
  pub is_collection : Bool
  pub display_name : String
  pub get_content_length : ℤ
  pub get_content_type : String
  pub get_last_modified : String
  pub get_etag : String
  pub file_id : String
  pub permissions : String
  pub size : ℤ
  pub owner_id : String
  pub owner_display_name : String
  pub favorite : String
  pub share_types : String
  pub tags : String
  pub highlights : String
  pub score : String
  pub space_id : String
  pub name : String

pub record PropStat : Type 0 where
  pub prop : Prop
  pub status : String

pub record DavResponse : Type 0 where
  pub href : String
  pub prop_stats : List PropStat

-- What encoding/xml decodes of a Multi-Status body.
pub record DavDecoder : Type 0 where
  pub decode_multi_status : Bytes → Result String (List DavResponse)

pub record FileInfo : Type 0 where
  pub name : String
  pub path : String
  -- "file", "folder", or empty if no property came with status 200
  pub kind : String
  pub size : ℤ
  pub content_type : String
  pub last_modified : String
  pub etag : String
  pub file_id : String
  pub permissions : String
  pub owner_id : String
  pub owner_display_name : String
  pub tags : String

-- the text after the last occurrence of a character
unfoldable pub after_last : ℕ → String → Option String
after_last a String.[] = none
after_last a (String.◌∷◌ c s) = elim (after_last a s) [
  | some t ↦ some t
  | none ↦ if nat_eq (code c) a then some s else none
]

unfoldable pub name_from_href : String → String
unfolding after_last trim_right
name_from_href href =
    let trimmed = trim_right b'/' href in
    elim (after_last b'/' trimmed) [ some t ↦ t | none ↦ trimmed ]

unfoldable pub is_zero : ℤ → Bool
is_zero (pos n) = nat_eq n 0
is_zero (negsuc n) = false

unfoldable pub store_prop : Prop → FileInfo → FileInfo
unfolding is_zero
store_prop p fi = record {
  name = if p.name == "" then fi.name else p.name;
  path = fi.path;
  kind = if p.is_collection then "folder" else "file";
  size = if is_zero p.size then p.get_content_length else p.size;
  content_type = p.get_content_type;
  last_modified = p.get_last_modified;
  etag = p.get_etag;
  file_id = p.file_id;
  permissions = p.permissions;
  owner_id = p.owner_id;
  owner_display_name = p.owner_display_name;
  tags = p.tags;
}

unfoldable pub store_prop_stats : List PropStat → FileInfo → FileInfo
unfolding store_prop
store_prop_stats [] fi = fi
store_prop_stats (ps ∷ rest) fi =
    store_prop_stats rest
      (if not (contains (codes ps.status) (codes "200")) then fi else store_prop ps.prop fi)

unfoldable pub to_file_info : DavResponse → FileInfo
unfolding name_from_href store_prop_stats
to_file_info r = store_prop_stats r.prop_stats (record {
  name = name_from_href r.href;
  path = r.href;
  kind = "";
  size = pos 0;
  content_type = "";
  last_modified = "";
  etag = "";
  file_id = "";
  permissions = "";
  owner_id = "";
  owner_display_name = "";
  tags = "";
})
