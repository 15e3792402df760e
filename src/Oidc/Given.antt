-- ===== src/Oidc/Given.antt =====
-- The level that the answer of oCIS gives on a drive (internal/oidc/spaces.go), said without the code's
-- loops, and that each space that is listed has this level as its ceiling.
use text.Mathlib.Text.{◌==◌}
use text.Mathlib.TextEquality.{eq_iff}
use ocis_mcp_server.Base.{
  ◌≤◌, ◌≡◌, refl, sym, subst, ◌⊎◌, inl, inr, true, false, Option, none, some, String, List, [], ◌∷◌,
  ◌++◌, nat_eq, arith, All, Some-element, In, All_at, Bool-cases, Option-cases, ok,
}
use ocis_mcp_server.Grant.Ceiling.{ceiling_from_roles_strongest}
use ocis_mcp_server.Grant.Level.{Level, level_none, level_read, level_admin, SpaceGrant}
use ocis_mcp_server.Grant.Roles.{map_ocis_role, ceiling_from_roles}
use ocis_mcp_server.Oidc.{
  GraphDrive, GraphAnswer, permission_roles, drive_roles, drive_ceiling, space_of_drive,
  spaces_of_drives, sort_spaces, accessible_spaces,
}
use ocis_mcp_server.Oidc.Ceilings.{
  IsOffered, drive_ceiling_bounds, sort_spaces-All, space_of_drive-IsOffered,
}

-- The drive lists the role as an effective one or with a permission of its root.
pub data HasRole (d : GraphDrive) (role : String) : Type 0 where
  effective : In role d.effective_roles → HasRole d role
  permitted :
      (permissions : List (List String)) (roles : List String)
      → d.root ≡ some permissions
      → In roles permissions
      → In role roles
      → HasRole d role

-- The level is one that the answer gives: read is given with every drive that is listed, a role gives
-- its level, and a personal drive without a role that gives a level is its owner's.
pub data IsGiven (d : GraphDrive) (l : Level) : Type 0 where
  by_listing : l ≤ level_read → IsGiven d l
  by_role : (role : String) → HasRole d role → l ≤ map_ocis_role role → IsGiven d l
  by_owner :
      d.drive_type ≡ "personal"
      → ((role : String) → HasRole d role → map_ocis_role role ≡ level_none)
      → l ≤ level_admin
      → IsGiven d l

pub IsGiven-mono : (d : GraphDrive) (l m : Level) → l ≤ m → IsGiven d m → IsGiven d l
IsGiven-mono d l m h (IsGiven.by_listing p) = IsGiven.by_listing (omega (arith, h, p))
IsGiven-mono d l m h (IsGiven.by_role role has p) = IsGiven.by_role role has (omega (arith, h, p))
IsGiven-mono d l m h (IsGiven.by_owner own without p) =
    IsGiven.by_owner own without (omega (arith, h, p))

module _ (role : String) where
  In-append : (xs ys : List String) → In role (xs ++ ys) → In role xs ⊎ In role ys
  In-append [] ys i = inr i
  In-append (x ∷ xs) ys (inl e) = inl (inl e)
  In-append (x ∷ xs) ys (inr i) = elim (In-append xs ys i) [ inl j ↦ inl (inr j) | inr j ↦ inr j ]

  append-In : (xs ys : List String) → In role xs ⊎ In role ys → In role (xs ++ ys)
  append-In [] ys (inl i) = absurd i
  append-In [] ys (inr i) = i
  append-In (x ∷ xs) ys (inl (inl e)) = inl e
  append-In (x ∷ xs) ys (inl (inr i)) = inr (append-In xs ys (inl i))
  append-In (x ∷ xs) ys (inr i) = inr (append-In xs ys (inr i))

  permission_roles-In :
      (permissions : List (List String))
      → In role (permission_roles permissions)
      → (roles : List String) × In roles permissions × In role roles
  unfolding permission_roles
  permission_roles-In [] i = absurd i
  permission_roles-In (roles ∷ rest) i = elim (In-append roles (permission_roles rest) i) [
    | inl j ↦ (roles, inl refl, j)
    | inr j ↦ let (found, k, m) = permission_roles-In rest j in (found, inr k, m)
  ]

  In-permission_roles :
      (permissions : List (List String)) (roles : List String)
      → In roles permissions
      → In role roles
      → In role (permission_roles permissions)
  unfolding permission_roles
  In-permission_roles [] roles i j = absurd i
  In-permission_roles (first ∷ rest) roles (inl e) j =
      append-In first (permission_roles rest) (inl (subst (In role) (sym e) j))
  In-permission_roles (first ∷ rest) roles (inr i) j =
      append-In first (permission_roles rest) (inr (In-permission_roles rest roles i j))

  drive_roles-HasRole : (d : GraphDrive) → In role (drive_roles d) → HasRole d role
  unfolding drive_roles
  drive_roles-HasRole d i = elim (Option-cases d.root) [
    | inl e ↦ HasRole.effective (rw e at i)
    | inr (permissions, e) ↦
        elim (In-append d.effective_roles (permission_roles permissions) (rw e at i)) [
          | inl j ↦ HasRole.effective j
          | inr j ↦
              let (roles, k, m) = permission_roles-In permissions j in
              HasRole.permitted permissions roles e k m
        ]
  ]

  HasRole-drive_roles : (d : GraphDrive) → HasRole d role → In role (drive_roles d)
  unfolding drive_roles
  HasRole-drive_roles d (HasRole.effective i) = elim (Option-cases d.root) [
    | inl e ↦ rw e i
    | inr (permissions, e) ↦
        rw e (append-In d.effective_roles (permission_roles permissions) (inl i))
  ]
  HasRole-drive_roles d (HasRole.permitted permissions roles e i j) = rw e (
      append-In d.effective_roles (permission_roles permissions)
        (inr (In-permission_roles permissions roles i j)))

own_ceiling :
    (d : GraphDrive)
    → nat_eq (ceiling_from_roles (drive_roles d)) level_none ≡ false
    → drive_ceiling d ≡ ceiling_from_roles (drive_roles d)
unfolding drive_ceiling
own_ceiling d h = ground (arith, h)

unowned_ceiling :
    (d : GraphDrive)
    → nat_eq (ceiling_from_roles (drive_roles d)) level_none ≡ true
    → (d.drive_type == "personal") ≡ false
    → drive_ceiling d ≤ level_read
unfolding drive_ceiling
unowned_ceiling d h k = ground (arith, h, k)

-- The ceiling that is computed for a drive is given by the answer.
drive_ceiling-IsGiven : (d : GraphDrive) → IsGiven d (drive_ceiling d)
drive_ceiling-IsGiven d =
    let ceiling = ceiling_from_roles (drive_roles d) in
    let (each, attained) = ceiling_from_roles_strongest (drive_roles d) in
    elim (Bool-cases (nat_eq ceiling level_none)) [
      | inl e ↦ elim (Bool-cases (d.drive_type == "personal")) [
        | inl own ↦
            IsGiven.by_owner ((eq_iff d.drive_type "personal").0 own)
              (λ role has.
                let low =
                  All_at (λ r. map_ocis_role r ≤ ceiling) (drive_roles d) role each
                    (HasRole-drive_roles role d has) in
                ground (arith, low, e))
              (drive_ceiling_bounds d).1
        | inr other ↦ IsGiven.by_listing (unowned_ceiling d e other)
      ]
      | inr e ↦ elim attained [
        | inl nothing ↦ absurd (ground (arith, nothing, e))
        | inr found ↦
            let (role, i, same) =
              Some-element (λ r. map_ocis_role r ≡ ceiling) (drive_roles d) found in
            IsGiven.by_role role (drive_roles-HasRole role d i)
              (let own = own_ceiling d e in omega (arith, own, same))
      ]
    ]

-- The space is one that an answer listed, not yet given a level, with a ceiling that the answer gives.
pub record IsListed (D : GraphDrive → Type 0) (s : SpaceGrant) : Type 0 where
  pub drive : GraphDrive
  pub from_answer : D drive
  pub named : s.id ≡ drive.id
  pub given : IsGiven drive s.ceiling
  pub offered : IsOffered s

-- Every drive of the answer is one of these.
abbrev pub Lists : (GraphDrive → Type 0) → Option GraphAnswer → Type 0
Lists D none = Unit
Lists D (some answer) = (drives : List GraphDrive) → answer.body ≡ some drives → All D drives

module _ (D : GraphDrive → Type 0) where
  space_of_drive-IsListed :
      (d : GraphDrive) → D d → (d.drive_type == "virtual") ≡ false → IsListed D (space_of_drive d)
  unfolding space_of_drive
  space_of_drive-IsListed d p h = record {
    drive = d;
    from_answer = p;
    named = refl;
    given = drive_ceiling-IsGiven d;
    offered = space_of_drive-IsOffered d h;
  }

  spaces_of_drives-IsListed :
      (ds : List GraphDrive) → All D ds → All (IsListed D) (spaces_of_drives ds)
  unfolding spaces_of_drives
  spaces_of_drives-IsListed [] h = tt
  spaces_of_drives-IsListed (d ∷ ds) (p, h) = elim (Bool-cases (d.drive_type == "virtual")) [
    | inl e ↦ rw e (spaces_of_drives-IsListed ds h)
    | inr e ↦ rw e (space_of_drive-IsListed d p e, spaces_of_drives-IsListed ds h)
  ]

  pub accessible_spaces-IsListed :
      (answer : Option GraphAnswer) (spaces : List SpaceGrant)
      → Lists D answer
      → accessible_spaces answer ≡ ok spaces
      → All (IsListed D) spaces
  unfolding accessible_spaces
  accessible_spaces-IsListed none spaces l h = absurd (ground arith)
  accessible_spaces-IsListed (some answer) spaces l h = elim (Option-cases answer.body) [
    | inl e ↦ absurd (ground (arith, e))
    | inr (drives, e) ↦
        let same : sort_spaces (spaces_of_drives drives) ≡ spaces = ground (arith, e) in
        rw (← same) (
          sort_spaces-All (IsListed D) (spaces_of_drives drives)
            (spaces_of_drives-IsListed drives (l drives e)))
  ]
