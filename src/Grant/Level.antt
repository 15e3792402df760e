-- ===== src/Grant/Level.antt =====
-- internal/grant/level.go: the levels and the grant. A Go `Level` is an int; the program makes none
-- but the four constants, so a level is a natural number here.
use ocis_mcp_server.Base.{
  ℕ, String, Bool, Option, none, some, List, [], ◌∷◌, ◌==◌, leb, nat_eq, if◌then◌else◌,
}
use ocis_mcp_server.Base.Text.{codes, map_codes, lower_code, trim_space, one_of}

abbrev pub Level : Type 0
Level = ℕ

abbrev pub level_none : Level
level_none = 0

abbrev pub level_read : Level
level_read = 1

abbrev pub level_write : Level
level_write = 2

abbrev pub level_admin : Level
level_admin = 3

-- `String`
unfoldable pub level_string : Level → String
level_string l =
    if nat_eq l level_read
    then "read"
    else if nat_eq l level_write
    then "write"
    else if nat_eq l level_admin
    then "admin"
    else "none"

unfoldable pub level_of_word : List ℕ → Level
unfolding one_of
level_of_word w =
    if one_of w ("read" ∷ "viewer" ∷ "view" ∷ [])
    then level_read
    else if one_of w ("write" ∷ "editor" ∷ "edit" ∷ [])
    then level_write
    else if one_of w ("admin" ∷ "manager" ∷ "owner" ∷ [])
    then level_admin
    else level_none

unfoldable pub parse_level : String → Level
unfolding level_of_word map_codes lower_code trim_space
parse_level s = level_of_word (map_codes lower_code (trim_space (codes s)))

unfoldable pub at_least : Level → Level → Bool
at_least l need = leb need l

pub record SpaceGrant : Type 0 where
  pub id : String
  pub name : String
  pub drive_type : String
  pub level : Level
  pub ceiling : Level
  pub description : String

pub record Grant : Type 0 where
  pub id : String
  pub user_id : String
  pub user_name : String
  pub client_id : String
  pub spaces : List SpaceGrant
  pub instance_admin : Bool
  pub ocis_access : String
  pub ocis_refresh : String
  pub ocis_expiry_unix : ℕ

-- the loop of `SpaceLevel`: the first row of that id decides
unfoldable pub first_level : String → List SpaceGrant → Level
first_level space_id [] = level_none
first_level space_id (s ∷ rest) = if s.id == space_id then s.level else first_level space_id rest

-- `none` is the nil receiver
unfoldable pub space_level : Option Grant → String → Level
unfolding first_level
space_level none space_id = level_none
space_level (some g) space_id = first_level space_id g.spaces
