-- ===== src/Grant/Enforcement.antt =====
-- What `Allow` lets through (internal/grant/catalog.go).
use ocis_mcp_server.Base.{
  ◌≤◌, ◌<◌, String, ◌≡◌, ◌≢◌, refl, ◌↔◌, Bool, true, false, some, List, ◌||◌, eq_iff, arith, leb,
  if_elim, lt→ltb, Some, Some-map, any_sound, any_complete, ok,
}
use ocis_mcp_server.Grant.Level.{Level, level_none, SpaceGrant, Grant, space_level}
use ocis_mcp_server.Grant.Arguments.{RawMessage}
use ocis_mcp_server.Grant.Catalog.{
  Need, no_need, always_tools, admin_tools, space_read_tools, space_write_tools, space_admin_tools,
  any_read_tools, any_write_tools, listed, tool_need, target_space, some_space_at, allow_need,
  allow_for, allow,
}

-- The eight entries of the catalogue: a fact about each is a fact about what any tool needs.
pub tool_need-elim {κ} :
    (P : Need → Type κ) (name : String)
    → P (record no_need { always = true })
    → P (record no_need { instance_admin = true })
    → ((l : Level) → level_none < l → P (record no_need { space = l }))
    → ((l : Level) → level_none < l → P (record no_need { any_space = l }))
    → P (tool_need name)
unfolding tool_need
tool_need-elim P name a i s n = if_elim P (listed name always_tools) a (
    if_elim P (listed name admin_tools) i (
      if_elim P (listed name space_read_tools) (s 1 (omega arith)) (
        if_elim P (listed name space_write_tools) (s 2 (omega arith)) (
          if_elim P (listed name space_admin_tools) (s 3 (omega arith)) (
            if_elim P (listed name any_read_tools) (n 1 (omega arith))
              (if_elim P (listed name any_write_tools) (n 2 (omega arith)) i))))))

-- When a grant covers what a tool needs on a space: the rules of the consent screen.
pub data Covers (g : Grant) (space_id : String) (need : Need) : Type 0 where
  anyone : need.always ≡ true → Covers g space_id need
  administrator : need.instance_admin ≡ true → g.instance_admin ≡ true → Covers g space_id need
  on_space :
      level_none < need.space
      → space_id ≢ ""
      → need.space ≤ space_level (some g) space_id
      → Covers g space_id need
  on_some_space :
      level_none < need.any_space
      → Some (λ s. need.any_space ≤ s.level) g.spaces
      → Covers g space_id need

pub some_space_at_iff :
    (need : Level) (spaces : List SpaceGrant)
    → (some_space_at need spaces ≡ true) ↔ Some (λ s. need ≤ s.level) spaces
unfolding some_space_at
some_space_at_iff need spaces = (
  λ h. Some-map (λ s e. ground arith) spaces (any_sound (λ s. leb need s.level) spaces h),
  λ h. any_complete (λ s. leb need s.level) spaces (Some-map (λ s e. ground arith) spaces h),
)

module _ (g : Grant) (name : String) (arguments : RawMessage) where
  abbrev Verdict : Need → Type 0
  Verdict need =
      (allow_for need (some g) name arguments ≡ ok tt) ↔ Covers g (target_space arguments) need

  Verdict-always : Verdict (record no_need { always = true })
  unfolding allow_for
  Verdict-always = (λ h. anyone refl, λ c. refl)

  Verdict-instance_admin : Verdict (record no_need { instance_admin = true })
  unfolding allow_for allow_need
  Verdict-instance_admin = (
    λ h. administrator refl (ground arith),
    elim [
      | anyone e ↦ cc
      | administrator _ granted ↦ rw granted
      | on_space p _ _ ↦ absurd (omega arith)
      | on_some_space p _ ↦ absurd (omega arith)
    ],
  )

  Verdict-space : (l : Level) → level_none < l → Verdict (record no_need { space = l })
  unfolding allow_for allow_need
  Verdict-space l p = (
    λ h. on_space p (ground (arith, eq_iff (target_space arguments) "")) (ground arith),
    elim [
      | anyone e ↦ cc
      | administrator e _ ↦ cc
      | on_space _ named enough ↦ ground (arith, eq_iff (target_space arguments) "")
      | on_some_space q _ ↦ absurd (omega arith)
    ],
  )

  Verdict-any_space : (l : Level) → level_none < l → Verdict (record no_need { any_space = l })
  unfolding allow_for allow_need
  Verdict-any_space l p = (
    λ h. on_some_space p ((some_space_at_iff l g.spaces).0 (ground arith)),
    elim [
      | anyone e ↦ cc
      | administrator e _ ↦ cc
      | on_space q _ _ ↦ absurd (omega arith)
      | on_some_space _ found ↦ rw (lt→ltb level_none l p, (some_space_at_iff l g.spaces).1 found)
    ],
  )

-- A call passes exactly if the grant covers what the catalogue says of its tool, on the space that
-- the arguments name.
pub allow_iff :
    (g : Grant) (name : String) (arguments : RawMessage)
    → (allow (some g) name arguments ≡ ok tt) ↔ Covers g (target_space arguments) (tool_need name)
unfolding allow
allow_iff g name arguments =
    tool_need-elim (Verdict g name arguments) name (Verdict-always g name arguments)
      (Verdict-instance_admin g name arguments) (Verdict-space g name arguments)
      (Verdict-any_space g name arguments)

-- One grant allows no more than another: no flag, no level of a space, and no row.
pub record IsWeaker (g g' : Grant) : Type 0 where
  pub admin : g.instance_admin ≡ true → g'.instance_admin ≡ true
  pub on_space :
      (space_id : String) → space_level (some g) space_id ≤ space_level (some g') space_id
  pub on_some_space :
      (l : Level) → Some (λ s. l ≤ s.level) g.spaces → Some (λ s. l ≤ s.level) g'.spaces

Covers-mono :
    {g g' : Grant} {space_id : String} {need : Need}
    → IsWeaker g g'
    → Covers g space_id need
    → Covers g' space_id need
Covers-mono w (anyone e) = anyone e
Covers-mono w (administrator e granted) = administrator e (w.admin granted)
Covers-mono {space_id} w (on_space p named enough) =
    on_space p named (omega (arith, w.on_space space_id))
Covers-mono {need} w (on_some_space p found) =
    on_some_space p (w.on_some_space need.any_space found)

-- A call that passes under a grant passes under every grant that allows as much.
pub allow_mono :
    (g g' : Grant) (name : String) (arguments : RawMessage)
    → IsWeaker g g'
    → allow (some g) name arguments ≡ ok tt
    → allow (some g') name arguments ≡ ok tt
allow_mono g g' name arguments w h =
    (allow_iff g' name arguments).1 (Covers-mono w ((allow_iff g name arguments).0 h))

-- The tools that the catalogue names.
abbrev pub is_listed : String → Bool
is_listed name =
    listed name always_tools
    || listed name admin_tools
    || listed name space_read_tools
    || listed name space_write_tools
    || listed name space_admin_tools
    || listed name any_read_tools
    || listed name any_write_tools

tool_need_unlisted :
    (name : String)
    → is_listed name ≡ false
    → tool_need name ≡ record no_need { instance_admin = true }
unfolding tool_need
tool_need_unlisted name h = ground arith

-- A tool that the catalogue does not name passes exactly if instance administration was granted,
-- whatever its arguments and whatever the levels on the spaces.
pub allow_unlisted_iff :
    (g : Grant) (name : String) (arguments : RawMessage)
    → is_listed name ≡ false
    → (allow (some g) name arguments ≡ ok tt) ↔ (g.instance_admin ≡ true)
unfolding allow
allow_unlisted_iff g name arguments h = rw (tool_need_unlisted name h) (
    let v = Verdict-instance_admin g name arguments in
    (
      λ e. elim (v.0 e) [
        | anyone p ↦ cc
        | administrator _ granted ↦ granted
        | on_space p _ _ ↦ absurd (omega arith)
        | on_some_space p _ ↦ absurd (omega arith)
      ],
      λ granted. v.1 (administrator refl granted),
    ))
