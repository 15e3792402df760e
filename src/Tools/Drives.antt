-- ===== src/Tools/Drives.antt =====
-- internal/tools: the LibreGraph types of spaces.go and shares.go, and `filterGrantedDrives`
-- of helpers.go.
use ocis_mcp_server.Base.{String, Bool, Option, none, some, List, ◌==◌, any, keep, if◌then◌else◌}
use ocis_mcp_server.Base.Ints.{ℤ}
use ocis_mcp_server.Client.{Context}
use ocis_mcp_server.Grant.Level.{SpaceGrant}

pub record IdentityUser : Type 0 where
  pub id : String
  pub display_name : String

pub record Identity : Type 0 where
  pub user : Option IdentityUser

pub record DriveQuota : Type 0 where
  pub total : ℤ
  pub used : ℤ
  pub remaining : ℤ
  pub state : String

pub record DriveItem : Type 0 where
  pub id : String
  pub name : String
  pub etag : String

pub record Drive : Type 0 where
  pub id : String
  pub name : String
  pub drive_type : String
  pub description : String
  pub web_url : String
  pub owner : Option Identity
  pub quota : Option DriveQuota
  pub root : Option DriveItem
  pub created_by : Option Identity
  pub special : List DriveItem

pub record GrantedTo : Type 0 where
  pub user : Option IdentityUser
  pub group : Option IdentityUser

pub record SharingLink : Type 0 where
  pub kind : String
  pub web_url : String
  pub password : Bool

pub record Invitation : Type 0 where
  pub invited_by : Option Identity

pub record Permission : Type 0 where
  pub id : String
  pub roles : List String
  pub granted_to_v2 : Option GrantedTo
  pub link : Option SharingLink
  pub expiration_date_time : String
  pub has_password : Bool
  pub created_date_time : String
  pub invitation : Option Invitation

pub record RolePermission : Type 0 where
  pub condition : String
  pub allowed_resource_actions : List String

pub record SharingRole : Type 0 where
  pub id : String
  pub display_name : String
  pub description : String
  pub condition : String
  pub role_permissions : List RolePermission

pub record InviteOutput : Type 0 where
  pub permissions : List Permission

pub record RemoteItem : Type 0 where
  pub id : String
  pub name : String

pub record SharedItem : Type 0 where
  pub id : String
  pub name : String
  pub remote_item : Option RemoteItem
  pub permissions : List Permission

-- the map `allowed` has the ID
unfoldable pub is_allowed : List SpaceGrant → String → Bool
is_allowed spaces id = any (λ s. s.id == id) spaces

unfoldable pub filter_granted_drives : Context → List Drive → List Drive
unfolding is_allowed
filter_granted_drives ctx drives = elim ctx.grant [
  | none ↦ drives
  | some g ↦ if g.instance_admin then drives else keep (λ d. is_allowed g.spaces d.id) drives
]
