-- ===== src/Tools/Granted.antt =====
-- Which spaces `filterGrantedDrives` (internal/tools/helpers.go) leaves in a list.
use ocis_mcp_server.Base.{
  ◌≡◌, if◌then◌else◌, sym, subst, ◌↔◌, inl, inr, Bool, true, false, String, Option, none, some,
  List, ◌==◌, eq_iff, keep, Some, In, Some-map, any_sound, any_complete, Bool-cases, In-keep,
  keep-In, ◌∙◌,
}
use mathlib.Core.Bool.{false≢true}
use ocis_mcp_server.Client.{Context, RequestAuth}
use ocis_mcp_server.Grant.Level.{Grant, SpaceGrant}
use ocis_mcp_server.Tools.Drives.{Drive, is_allowed, filter_granted_drives}

pub is_allowed_iff :
    (spaces : List SpaceGrant) (id : String)
    → (is_allowed spaces id ≡ true) ↔ Some (λ s. s.id ≡ id) spaces
unfolding is_allowed
is_allowed_iff spaces id = (
  λ h. Some-map (λ s e. (eq_iff s.id id).0 e) spaces (any_sound (λ s. s.id == id) spaces h),
  λ h. any_complete (λ s. s.id == id) spaces (Some-map (λ s e. (eq_iff s.id id).1 e) spaces h),
)

-- When a caller may see a space in a list: outside of a grant, as an administrator of the instance, or
-- with a row for it.
pub data MaySee (id : String) : Option Grant → Type 0 where
  outside : MaySee id none
  administrator : {g : Grant} → g.instance_admin ≡ true → MaySee id (some g)
  with_row : {g : Grant} → Some (λ s. s.id ≡ id) g.spaces → MaySee id (some g)

shown_row :
    {g : Grant} {id : String}
    → g.instance_admin ≡ false
    → MaySee id (some g)
    → Some (λ s. s.id ≡ id) g.spaces
shown_row e (administrator a) = absurd (false≢true (sym e ∙ a))
shown_row e (with_row s) = s

filtered_iff :
    (auth : Option RequestAuth) (grant : Option Grant) (d : Drive) (drives : List Drive)
    → In d (filter_granted_drives (record { auth = auth; grant = grant }) drives)
      ↔ (In d drives × MaySee d.id grant)
unfolding filter_granted_drives
filtered_iff auth none d drives = ((λ h. (h, outside)), (λ h. h.0))
filtered_iff auth (some g) d drives =
    let P : Bool → Type 0 = λ b.
      In d (if b then drives else keep (λ x. is_allowed g.spaces x.id) drives)
      ↔ (In d drives × MaySee d.id (some g)) in
    elim (Bool-cases g.instance_admin) [
      | inl a ↦ subst P (sym a) ((λ h. (h, administrator a)), (λ h. h.0))
      | inr a ↦ subst P (sym a) (
        (λ h.
            let (i, k) = keep-In (λ x. is_allowed g.spaces x.id) d drives h in
            (i, with_row ((is_allowed_iff g.spaces d.id).0 k))),
        (λ h.
            In-keep (λ x. is_allowed g.spaces x.id) d drives h.0
              ((is_allowed_iff g.spaces d.id).1 (shown_row a h.1))),
      )
    ]

-- A space is in the filtered list exactly if it was in the list and the caller may see it.
pub filter_granted_drives_iff :
    (ctx : Context) (d : Drive) (drives : List Drive)
    → In d (filter_granted_drives ctx drives) ↔ (In d drives × MaySee d.id ctx.grant)
filter_granted_drives_iff ctx d drives = filtered_iff ctx.auth ctx.grant d drives
