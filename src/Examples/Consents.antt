-- ===== src/Examples/Consents.antt =====
-- The rules of the grants at concrete inputs.
use Prim.Native.Nat.{min}
use ocis_mcp_server.Base.{
  ◌≤◌, String, ◌≡◌, refl, ◌↔◌, true, some, List, [], ◌∷◌, ◌⊎◌, arith, All, Some, In, ok,
  ne_of_eq-false,
}
use ocis_mcp_server.Grant.Level.{
  level_none, level_read, level_admin, space_level, first_level, at_least,
}
use ocis_mcp_server.Grant.Roles.{map_ocis_role, ceiling_from_roles, clamp_level, levels_offered}
use ocis_mcp_server.Grant.Catalog.{
  tool_need, target_space, allow, listed, visible_tools, allow_for, allow_need,
}
use ocis_mcp_server.Grant.Arguments.{
  unmarshal_args, store_members, store_member, names_field, store_text,
}
use ocis_mcp_server.Base.Text.{map_codes, fold_code, same}
use ocis_mcp_server.Base.{any}
use ocis_mcp_server.Grant.Ceiling.{
  clamp_level-eq-min, levels_offered_iff, ceiling_from_roles_strongest,
}
use ocis_mcp_server.Grant.Enforcement.{Covers, IsWeaker, allow_iff, allow_mono, allow_unlisted_iff}
use ocis_mcp_server.Grant.Visibility.{HasDistinctIds, HasCall, visible_tools_iff}
use ocis_mcp_server.Examples.Data.{consent, wider, on_home}

abbrev folder_tool : String
folder_tool = "ocis_create_folder"

allow_iff_example :
    (allow (some consent) "ocis_create_folder" on_home ≡ ok tt)
    ↔ Covers consent (target_space on_home) (tool_need "ocis_create_folder")
allow_iff_example = allow_iff consent "ocis_create_folder" on_home

allowed : allow (some consent) "ocis_create_folder" on_home ≡ ok tt
unfolding allow allow_for allow_need tool_need listed any target_space unmarshal_args store_members
    store_member names_field store_text map_codes fold_code same at_least space_level first_level
allowed = refl

weaker : IsWeaker consent wider
unfolding space_level
weaker = record { admin = λ h. refl; on_space = λ space_id. omega arith; on_some_space = λ l h. h }

allow_mono_example : allow (some wider) "ocis_create_folder" on_home ≡ ok tt
allow_mono_example = allow_mono consent wider "ocis_create_folder" on_home weaker allowed

allow_unlisted_iff_example :
    (allow (some wider) "ocis_format_disk" on_home ≡ ok tt) ↔ (wider.instance_admin ≡ true)
unfolding listed any
allow_unlisted_iff_example = allow_unlisted_iff wider "ocis_format_disk" on_home refl

distinct : HasDistinctIds consent.spaces
distinct = (
  ne_of_eq-false "home" "" refl,
  (ne_of_eq-false "team" "home" refl, tt),
  (ne_of_eq-false "team" "" refl, tt, tt),
)

visible_tools_iff_example :
    In folder_tool (visible_tools (some consent) ("ocis_create_folder" ∷ []))
    ↔ (In folder_tool ("ocis_create_folder" ∷ []) × HasCall consent "ocis_create_folder")
visible_tools_iff_example =
    visible_tools_iff consent ("ocis_create_folder" ∷ []) "ocis_create_folder" distinct

clamp_level-eq-min_example : clamp_level 3 1 ≡ min 3 1
clamp_level-eq-min_example = clamp_level-eq-min 3 1

levels_offered_iff_example :
    In 2 (levels_offered 3) ↔ ((level_read ≤ 2) × (2 ≤ level_admin) × (2 ≤ 3))
levels_offered_iff_example = levels_offered_iff 2 3

abbrev roles : List String
roles = "viewer" ∷ "sp.manager" ∷ []

ceiling_from_roles_strongest_example :
    All (λ r. map_ocis_role r ≤ ceiling_from_roles roles) roles
    × ((ceiling_from_roles roles ≡ level_none)
        ⊎ Some (λ r. map_ocis_role r ≡ ceiling_from_roles roles) roles)
ceiling_from_roles_strongest_example = ceiling_from_roles_strongest roles
