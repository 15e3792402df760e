-- ===== src/Grant/Ceiling.antt =====
-- The levels that a user may consent to, against the role that oCIS gives the user.
use Prim.Native.Nat.{min}
use ocis_mcp_server.Base.{
  String, ◌≤◌, ◌≡◌, refl, sym, ◌∙◌, zero, suc, if◌then◌else◌, ◌⊎◌, inl, inr, ◌↔◌, List, [], ◌∷◌,
  arith, ltb, All, Some, In,
}
use ocis_mcp_server.Base.Text.{same}
use ocis_mcp_server.Grant.Level.{
  Level, level_none, level_read, level_admin, level_string, parse_level,
}
use ocis_mcp_server.Grant.Roles.{
  map_ocis_role, role_level, strongest_from, ceiling_from_roles, clamp_level, levels_offered,
}

-- Whatever the form asks for, the clamped level is the smaller of the choice and the ceiling.
pub clamp_level-eq-min : (want ceiling : Level) → clamp_level want ceiling ≡ min want ceiling
unfolding clamp_level
clamp_level-eq-min want ceiling = ground arith

-- A level is offered exactly if it is one of read, write and admin and does not pass the ceiling.
pub levels_offered_iff :
    (l ceiling : Level)
    → In l (levels_offered ceiling) ↔ ((level_read ≤ l) × (l ≤ level_admin) × (l ≤ ceiling))
unfolding levels_offered
levels_offered_iff l ceiling = (λ i. ground arith, λ h. ground arith)

abbrev stronger : Level → String → Level
stronger m r = if ltb m (map_ocis_role r) then map_ocis_role r else m

stronger_bounds : (m : Level) (r : String) → (m ≤ stronger m r) × (map_ocis_role r ≤ stronger m r)
stronger_bounds m r = ground arith

stronger-cases : (m : Level) (r : String) → (stronger m r ≡ m) ⊎ (map_ocis_role r ≡ stronger m r)
stronger-cases m r = ground arith

strongest_from-le : (m : Level) (roles : List String) → m ≤ strongest_from m roles
unfolding strongest_from
strongest_from-le m [] = omega arith
strongest_from-le m (r ∷ roles) =
    omega (arith, stronger_bounds m r, strongest_from-le (stronger m r) roles)

strongest_from-All :
    (m : Level) (roles : List String) → All (λ r. map_ocis_role r ≤ strongest_from m roles) roles
unfolding strongest_from
strongest_from-All m [] = tt
strongest_from-All m (r ∷ roles) = (
  omega (arith, stronger_bounds m r, strongest_from-le (stronger m r) roles),
  strongest_from-All (stronger m r) roles,
)

strongest_from-Some :
    (m : Level) (roles : List String)
    → (strongest_from m roles ≡ m) ⊎ Some (λ r. map_ocis_role r ≡ strongest_from m roles) roles
unfolding strongest_from
strongest_from-Some m [] = inl refl
strongest_from-Some m (r ∷ roles) = elim (strongest_from-Some (stronger m r) roles) [
  | inl same ↦ elim (stronger-cases m r) [
    | inl kept ↦ inl (same ∙ kept)
    | inr taken ↦ inr (inl (taken ∙ sym same))
  ]
  | inr later ↦ inr (inr later)
]

-- The ceiling is at least the level of every role of the list, and it is the level of one of them
-- unless it is none.
pub ceiling_from_roles_strongest :
    (roles : List String)
    → All (λ r. map_ocis_role r ≤ ceiling_from_roles roles) roles
      × ((ceiling_from_roles roles ≡ level_none)
          ⊎ Some (λ r. map_ocis_role r ≡ ceiling_from_roles roles) roles)
unfolding ceiling_from_roles
ceiling_from_roles_strongest roles =
    (strongest_from-All level_none roles, strongest_from-Some level_none roles)

-- A role name, known or not, gives at most the admin level.
pub map_ocis_role-le : (role : String) → map_ocis_role role ≤ level_admin
unfolding map_ocis_role role_level
map_ocis_role-le role = ground arith

-- The words that the levels print as are read back as those levels.
pub parse_level-level_string : (l : Level) → l ≤ level_admin → parse_level (level_string l) ≡ l
unfolding parse_level level_string same
parse_level-level_string zero h = refl
parse_level-level_string (suc zero) h = refl
parse_level-level_string (suc (suc zero)) h = refl
parse_level-level_string (suc (suc (suc zero))) h = refl
parse_level-level_string (suc (suc (suc (suc l)))) h = absurd (omega arith)

strongest_from-bounded :
    (m : Level) (roles : List String) → m ≤ level_admin → strongest_from m roles ≤ level_admin
unfolding strongest_from
strongest_from-bounded m [] h = h
strongest_from-bounded m (r ∷ roles) h =
    strongest_from-bounded (stronger m r) roles (ground (arith, map_ocis_role-le r))

pub ceiling_from_roles-le : (roles : List String) → ceiling_from_roles roles ≤ level_admin
unfolding ceiling_from_roles
ceiling_from_roles-le roles = strongest_from-bounded level_none roles (omega arith)
