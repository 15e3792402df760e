-- ===== src/Oidc/Ceilings.antt =====
-- What the list of spaces guarantees to the wizard.
use ocis_mcp_server.Base.{
  ◌≤◌, ◌≡◌, ◌≢◌, inl, inr, false, Option, none, some, List, [], ◌∷◌, ◌==◌, ne_of_eq-false, arith,
  All, Bool-cases, Option-cases, refl, ok,
}
use ocis_mcp_server.Grant.Level.{level_none, level_read, level_admin, SpaceGrant}
use ocis_mcp_server.Grant.Ceiling.{ceiling_from_roles-le}
use ocis_mcp_server.Oidc.{
  GraphDrive, GraphAnswer, drive_roles, drive_ceiling, space_of_drive, spaces_of_drives, space_less,
  insert_space, sort_spaces, accessible_spaces,
}

-- A space as the wizard starts with it: no level is chosen, and at least read may be.
pub record IsOffered (s : SpaceGrant) : Type 0 where
  pub unset : s.level ≡ level_none
  pub readable : level_read ≤ s.ceiling
  pub bounded : s.ceiling ≤ level_admin
  pub real : s.drive_type ≢ "virtual"

pub drive_ceiling_bounds :
    (d : GraphDrive) → (level_read ≤ drive_ceiling d) × (drive_ceiling d ≤ level_admin)
unfolding drive_ceiling
drive_ceiling_bounds d = ground (arith, ceiling_from_roles-le (drive_roles d))

pub space_of_drive-IsOffered :
    (d : GraphDrive) → (d.drive_type == "virtual") ≡ false → IsOffered (space_of_drive d)
unfolding space_of_drive
space_of_drive-IsOffered d h = record {
  unset = refl;
  readable = (drive_ceiling_bounds d).0;
  bounded = (drive_ceiling_bounds d).1;
  real = ne_of_eq-false d.drive_type "virtual" h;
}

spaces_of_drives-All : (ds : List GraphDrive) → All IsOffered (spaces_of_drives ds)
unfolding spaces_of_drives
spaces_of_drives-All [] = tt
spaces_of_drives-All (d ∷ ds) = elim (Bool-cases (d.drive_type == "virtual")) [
  | inl e ↦ rw e (spaces_of_drives-All ds)
  | inr e ↦ rw e (space_of_drive-IsOffered d e, spaces_of_drives-All ds)
]

module _ (P : SpaceGrant → Type 0) where
  insert_space-All :
      (a : SpaceGrant) (bs : List SpaceGrant) → P a → All P bs → All P (insert_space a bs)
  unfolding insert_space
  insert_space-All a [] p h = (p, tt)
  insert_space-All a (b ∷ bs) p (q, h) = elim (Bool-cases (space_less b a)) [
    | inl e ↦ rw e (q, insert_space-All a bs p h)
    | inr e ↦ rw e (p, (q, h))
  ]

  pub sort_spaces-All : (bs : List SpaceGrant) → All P bs → All P (sort_spaces bs)
  unfolding sort_spaces
  sort_spaces-All [] h = tt
  sort_spaces-All (b ∷ bs) (p, h) = insert_space-All b (sort_spaces bs) p (sort_spaces-All bs h)

-- Every space that is listed is a real one, has no level yet, and may be given read at least and
-- admin at most.
pub accessible_spaces-IsOffered :
    (answer : Option GraphAnswer) (spaces : List SpaceGrant)
    → accessible_spaces answer ≡ ok spaces
    → All IsOffered spaces
unfolding accessible_spaces
accessible_spaces-IsOffered none spaces h = absurd (ground arith)
accessible_spaces-IsOffered (some answer) spaces h = elim (Option-cases answer.body) [
  | inl e ↦ absurd (ground (arith, e))
  | inr (drives, e) ↦
      let same : sort_spaces (spaces_of_drives drives) ≡ spaces = ground (arith, e) in
      rw (← same)
        (sort_spaces-All IsOffered (spaces_of_drives drives) (spaces_of_drives-All drives))
]
