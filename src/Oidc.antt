-- ===== src/Oidc.antt =====
-- internal/oidc/spaces.go and parts of discover.go: what the login learns of the user from oCIS.
pub mod Ceilings
pub mod Given
use Prim.Native.Nat.{Ordering}
use Prim.Native.String.{compare}
use ocis_mcp_server.Base.{
  ℕ, String, Bool, true, false, not, ◌&&◌, Option, none, some, List, [], ◌∷◌, ◌++◌, ◌==◌, leb, ltb,
  nat_eq, if◌then◌else◌, Result, ok, err,
}
use ocis_mcp_server.Grant.Level.{Level, level_none, level_read, level_admin, SpaceGrant}
use ocis_mcp_server.Grant.Roles.{ceiling_from_roles}

-- `graphDrive`; `root` holds the roles of each permission
pub record GraphDrive : Type 0 where
  pub id : String
  pub name : String
  pub drive_type : String
  pub description : String
  pub effective_roles : List String
  pub root : Option (List (List String))

-- An answer of the Graph API: its status, and the drives if the body decodes.
pub record GraphAnswer : Type 0 where
  pub status : ℕ
  pub body : Option (List GraphDrive)

pub data OidcError : Type 0 where
  no_answer : OidcError
  bad_status : ℕ → OidcError
  bad_body : OidcError

unfoldable pub permission_roles : List (List String) → List String
permission_roles [] = []
permission_roles (roles ∷ rest) = roles ++ permission_roles rest

unfoldable pub drive_roles : GraphDrive → List String
drive_roles d = elim d.root [
  | none ↦ d.effective_roles
  | some permissions ↦ d.effective_roles ++ permission_roles permissions
]

unfoldable pub drive_ceiling : GraphDrive → Level
drive_ceiling d =
    let ceil = ceiling_from_roles (drive_roles d) in
    let owned =
      if nat_eq ceil level_none && (d.drive_type == "personal") then level_admin else ceil in
    if nat_eq owned level_none then level_read else owned

unfoldable pub space_of_drive : GraphDrive → SpaceGrant
space_of_drive d = record {
  id = d.id;
  name = d.name;
  drive_type = d.drive_type;
  level = level_none;
  ceiling = drive_ceiling d;
  description = d.description;
}

-- the loop of `AccessibleSpaces`
unfoldable pub spaces_of_drives : List GraphDrive → List SpaceGrant
spaces_of_drives [] = []
spaces_of_drives (d ∷ ds) =
    let rest = spaces_of_drives ds in
    if d.drive_type == "virtual" then rest else space_of_drive d ∷ rest

abbrev is_lt : Ordering → Bool
is_lt Ordering.lt = true
is_lt _ = false

-- the order that the list is sorted by
unfoldable pub space_less : SpaceGrant → SpaceGrant → Bool
space_less a b =
    if (a.drive_type == "personal") && not (b.drive_type == "personal")
    then true
    else if (b.drive_type == "personal") && not (a.drive_type == "personal")
    then false
    else is_lt (compare a.name b.name)

-- sort.SliceStable, as insertion before the first element that is not less
unfoldable pub insert_space : SpaceGrant → List SpaceGrant → List SpaceGrant
insert_space a [] = a ∷ []
insert_space a (b ∷ bs) =
    let rest = insert_space a bs in if space_less b a then b ∷ rest else a ∷ b ∷ bs

unfoldable pub sort_spaces : List SpaceGrant → List SpaceGrant
sort_spaces [] = []
sort_spaces (a ∷ rest) = insert_space a (sort_spaces rest)

-- `none`: the request could not be made
unfoldable pub accessible_spaces : Option GraphAnswer → Result OidcError (List SpaceGrant)
accessible_spaces none = err no_answer
accessible_spaces (some answer) =
    if leb 400 answer.status then err (bad_status answer.status) else elim answer.body [
      | none ↦ err bad_body
      | some drives ↦ ok (sort_spaces (spaces_of_drives drives))
    ]

-- the status of the probe
unfoldable pub is_instance_admin : Option ℕ → Bool
is_instance_admin none = false
is_instance_admin (some status) = leb 200 status && ltb status 300

pub record UserInfo : Type 0 where
  pub sub : String
  pub name : String
  pub preferred_name : String
  pub email : String
