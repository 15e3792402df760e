-- ===== src/Consent/Ceiling.antt =====
-- The levels that internal/consent/handler.go sets, against the ceilings.
use Prim.Native.String.{◌++◌}
use ocis_mcp_server.Base.{
  ◌≤◌, String, ◌≡◌, inl, inr, List, [], ◌∷◌, ◌==◌, arith, any, All, All-map, keep-All, Bool-cases,
}
use ocis_mcp_server.Http.{Form, form_value}
use ocis_mcp_server.Grant.Level.{Level, level_read, SpaceGrant, parse_level}
use ocis_mcp_server.Grant.Roles.{clamp_level}
use ocis_mcp_server.Oidc.{GraphDrive}
use ocis_mcp_server.Oidc.Given.{IsGiven, IsListed, IsGiven-mono}
use ocis_mcp_server.Store.Db.{OcisTok}
use ocis_mcp_server.Consent.Flow.{Flow, with_bag, selected_spaces}
use ocis_mcp_server.Consent.Handler.{
  Upstream, chosen_level, set_level, set_levels, with_levels, with_login, grant_of_flow,
}

-- The space is one that an answer of oCIS listed, its ceiling is given by that answer and at least
-- read, and its level is within the ceiling.
pub record IsCapped (D : GraphDrive → Type 0) (s : SpaceGrant) : Type 0 where
  pub readable : level_read ≤ s.ceiling
  pub capped : s.level ≤ s.ceiling
  pub drive : GraphDrive
  pub from_answer : D drive
  pub named : s.id ≡ drive.id
  pub given : IsGiven drive s.ceiling

abbrev pub IsWithin : (GraphDrive → Type 0) → Flow → Type 0
IsWithin D f = All (IsCapped D) f.spaces

chosen_level-le :
    (want ceiling : Level) → level_read ≤ ceiling → chosen_level want ceiling ≤ ceiling
unfolding chosen_level clamp_level
chosen_level-le want ceiling h = ground arith

module _ (D : GraphDrive → Type 0) (id : String) (want : Level) where
  set_level-All :
      (spaces : List SpaceGrant)
      → All (IsCapped D) spaces
      → All (IsCapped D) (set_level id want spaces)
  unfolding set_level
  set_level-All [] h = tt
  set_level-All (s ∷ rest) (p, h) = elim (Bool-cases (any (λ t. t.id == id) rest)) [
    | inl e ↦ rw e (p, set_level-All rest h)
    | inr e ↦ elim (Bool-cases (s.id == id)) [
      | inl named ↦
          rw (e, named)
            (
              record {
                readable = p.readable;
                capped = chosen_level-le want s.ceiling p.readable;
                drive = p.drive;
                from_answer = p.from_answer;
                named = p.named;
                given = p.given;
              },
              h,
            )
      | inr other ↦ rw (e, other) (p, h)
    ]
  ]

set_levels-All :
    (D : GraphDrive → Type 0) (form : Form) (ids : List String) (spaces : List SpaceGrant)
    → All (IsCapped D) spaces
    → All (IsCapped D) (set_levels form ids spaces)
unfolding set_levels
set_levels-All D form [] spaces h = h
set_levels-All D form (id ∷ ids) spaces h =
    set_levels-All D form ids (set_level id (parse_level (form_value ("level_" ++ id) form)) spaces)
      (set_level-All D id (parse_level (form_value ("level_" ++ id) form)) spaces h)

-- Whatever the form of the levels page says, the levels that are set are within the ceilings.
pub with_levels-IsWithin :
    (D : GraphDrive → Type 0) (form : Form) (f : Flow)
    → IsWithin D f
    → IsWithin D (with_levels form f)
unfolding with_levels
with_levels-IsWithin D form f h = set_levels-All D form f.selected f.spaces h

pub with_login-IsWithin :
    (D : GraphDrive → Type 0) (tok : OcisTok) (up : Upstream) (spaces : List SpaceGrant) (f : Flow)
    → All (IsListed D) spaces
    → IsWithin D (with_login tok up spaces f)
unfolding with_login
with_login-IsWithin D tok up spaces f h =
    All-map
      (λ s p. record {
        readable = p.offered.readable;
        capped = omega (arith, p.offered.unset, p.offered.readable);
        drive = p.drive;
        from_answer = p.from_answer;
        named = p.named;
        given = p.given;
      })
      spaces h

pub grant_of_flow-All :
    (D : GraphDrive → Type 0) (id : String) (f : Flow)
    → IsWithin D f
    → All (IsCapped D) (grant_of_flow id f).spaces
unfolding grant_of_flow selected_spaces
grant_of_flow-All D id f h = keep-All (λ s. any (λ k. k == s.id) f.selected) (IsCapped D) f.spaces h

pub with_bag-IsWithin :
    (D : GraphDrive → Type 0) (f g : Flow) → with_bag f ≡ g → IsWithin D f → IsWithin D g
unfolding with_bag
with_bag-IsWithin D f g e h = rw (← e) h

-- The space is one that an answer of oCIS listed, and that answer gives the level.
pub record IsAllowed (D : GraphDrive → Type 0) (s : SpaceGrant) : Type 0 where
  pub drive : GraphDrive
  pub from_answer : D drive
  pub named : s.id ≡ drive.id
  pub given : IsGiven drive s.level

pub IsCapped-IsAllowed :
    (D : GraphDrive → Type 0) (spaces : List SpaceGrant)
    → All (IsCapped D) spaces
    → All (IsAllowed D) spaces
IsCapped-IsAllowed D = All-map λ s p. record {
  drive = p.drive;
  from_answer = p.from_answer;
  named = p.named;
  given = IsGiven-mono p.drive s.level s.ceiling p.capped p.given;
}
