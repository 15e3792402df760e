-- ===== src/Grant/Roles.antt =====
-- internal/grant/roles.go: oCIS roles as levels, the ceiling, and what the consent form may offer.
use ocis_mcp_server.Base.{ℕ, String, ◌||◌, List, [], ◌∷◌, ◌++◌, leb, ltb, if◌then◌else◌}
use ocis_mcp_server.Base.Text.{
  codes, map_codes, lower_code, trim_space, trim_prefix, without_code, same, one_of, has_some,
}
use ocis_mcp_server.Grant.Level.{Level, level_none, level_read, level_write, level_admin}

-- the text that `MapOcisRole` switches on
unfoldable pub clean_role : String → List ℕ
unfolding map_codes lower_code trim_space trim_prefix without_code
clean_role role =
    without_code b' ' (trim_prefix (map_codes lower_code (trim_space (codes role))) (codes "sp."))

unfoldable pub role_level : List ℕ → Level
role_level r =
    if same r []
    then level_none
    else if has_some r ("manager" ∷ "admin" ∷ "owner" ∷ []) || same r (codes "spaceadmin")
    then level_admin
    else if has_some r ("editor" ∷ "writer" ∷ "contributor" ∷ [])
        || one_of r ("edit" ∷ "uploader" ∷ [])
    then level_write
    else if has_some r ("viewer" ∷ "reader" ∷ "guest" ∷ []) || one_of r ("view" ∷ "read" ∷ [])
    then level_read
    else level_read

unfoldable pub map_ocis_role : String → Level
map_ocis_role role = role_level (clean_role role)

-- the loop of `CeilingFromRoles`, from the strongest role so far
unfoldable pub strongest_from : Level → List String → Level
strongest_from strongest [] = strongest
strongest_from strongest (r ∷ roles) =
    strongest_from (if ltb strongest (map_ocis_role r) then map_ocis_role r else strongest) roles

unfoldable pub ceiling_from_roles : List String → Level
ceiling_from_roles roles = strongest_from level_none roles

unfoldable pub clamp_level : Level → Level → Level
clamp_level want ceiling =
    if ltb ceiling want then ceiling else if ltb want level_read then level_none else want

unfoldable pub levels_offered : Level → List Level
levels_offered ceiling =
    (if leb level_read ceiling then level_read ∷ [] else [])
    ++ (if leb level_write ceiling then level_write ∷ [] else [])
    ++ (if leb level_admin ceiling then level_admin ∷ [] else [])
