-- ===== src/Grant/Visibility.antt =====
-- The tools that tools/list shows (internal/grant/catalog.go).
use ocis_mcp_server.Base.{
  ◌≤◌, ◌<◌, String, ◌≡◌, ◌≢◌, inl, inr, ◌↔◌, true, some, List, [], ◌∷◌, ◌==◌, eq_iff, eq-false,
  arith, Bool-cases, lt→ltb, All, All_at, ap, sym, Some, In, In-keep, keep-In, Some-element, Result,
  ok, err,
}
use ocis_mcp_server.Base.Text.{same}
use ocis_mcp_server.Grant.Level.{Level, level_none, SpaceGrant, Grant, first_level, space_level}
use ocis_mcp_server.Grant.Arguments.{RawMessage, parsed, object, member, text, end, unmarshal_args}
use ocis_mcp_server.Grant.Catalog.{
  tool_need, target_space, some_space_at, allow, is_ok, shows, visible_tools,
}
use ocis_mcp_server.Grant.Enforcement.{
  Covers, anyone, administrator, on_space, on_some_space, allow_iff, some_space_at_iff,
}

-- Every row has an identifier, and no two rows share one.
abbrev pub HasDistinctIds : List SpaceGrant → Type 0
HasDistinctIds [] = Unit
HasDistinctIds (s ∷ rest) = (s.id ≢ "") × All (λ t. t.id ≢ s.id) rest × HasDistinctIds rest

first_level-In :
    (spaces : List SpaceGrant) (s : SpaceGrant)
    → HasDistinctIds spaces
    → In s spaces
    → first_level s.id spaces ≡ s.level
unfolding first_level
first_level-In [] s d i = absurd i
first_level-In (t ∷ rest) s (named, apart, d) (inl e) =
    rw ((eq_iff t.id s.id).1 (ap (λ (r : SpaceGrant). r.id) e)) (ap (λ (r : SpaceGrant). r.level) e)
first_level-In (t ∷ rest) s (named, apart, d) (inr i) =
    let differs = All_at (λ r. r.id ≢ t.id) rest s apart i in
    rw (eq-false t.id s.id (λ e. differs (sym e))) (first_level-In rest s d i)

-- A level that is not none comes from a row.
first_level-Some :
    (space_id : String) (spaces : List SpaceGrant) (need : Level)
    → level_none < need
    → need ≤ first_level space_id spaces
    → Some (λ s. need ≤ s.level) spaces
unfolding first_level
first_level-Some space_id [] need p h = absurd (omega arith)
first_level-Some space_id (s ∷ rest) need p h = elim (Bool-cases (s.id == space_id)) [
  | inl e ↦ inl (ground arith)
  | inr e ↦ inr (first_level-Some space_id rest need p (ground arith))
]

abbrev pub on : String → RawMessage
on space_id = parsed (object (member "space_id" (text space_id) end))

target_space-on : (space_id : String) → target_space (on space_id) ≡ space_id
unfolding target_space unmarshal_args same
target_space-on space_id = ground (arith, eq_iff space_id "")

pub HasDistinctIds-named :
    (spaces : List SpaceGrant) → HasDistinctIds spaces → All (λ s. s.id ≢ "") spaces
HasDistinctIds-named [] d = tt
HasDistinctIds-named (s ∷ rest) (named, _, d) = (named, HasDistinctIds-named rest d)

-- some call of the tool passes
abbrev pub HasCall : Grant → String → Type 0
HasCall g name = (arguments : RawMessage) × (allow (some g) name arguments ≡ ok tt)

module _ (g : Grant) (name : String) where
  abbrev empty_call : RawMessage
  empty_call = parsed (object end)

  is_ok_iff : {E : Type 0} (r : Result E (Unit {0})) → (is_ok r ≡ true) ↔ (r ≡ ok tt)
  unfolding is_ok
  is_ok_iff (ok a) = ground arith
  is_ok_iff (err e) = ground arith

  covered_empty : Covers g (target_space empty_call) (tool_need name) → shows g name ≡ true
  unfolding shows
  covered_empty c =
      rw ((is_ok_iff (allow (some g) name empty_call)).1 ((allow_iff g name empty_call).1 c))

  covered_space :
      (space_id : String)
      → level_none < (tool_need name).space
      → (tool_need name).space ≤ first_level space_id g.spaces
      → shows g name ≡ true
  unfolding shows
  covered_space space_id p enough =
      let found = first_level-Some space_id g.spaces (tool_need name).space p enough in
      ground (
        arith,
        lt→ltb level_none (tool_need name).space p,
        (some_space_at_iff (tool_need name).space g.spaces).1 found,
      )

  shown_of_call : HasCall g name → shows g name ≡ true
  unfolding space_level
  shown_of_call (arguments, h) = elim ((allow_iff g name arguments).0 h) [
    | anyone e ↦ covered_empty (anyone e)
    | administrator e granted ↦ covered_empty (administrator e granted)
    | on_space p _ enough ↦ covered_space (target_space arguments) p enough
    | on_some_space p found ↦ covered_empty (on_some_space p found)
  ]

  call_on :
      (s : SpaceGrant)
      → HasDistinctIds g.spaces
      → In s g.spaces
      → level_none < (tool_need name).space
      → (tool_need name).space ≤ s.level
      → HasCall g name
  unfolding space_level
  call_on s d i p enough = (
    on s.id,
    (allow_iff g name (on s.id)).1 (
        on_space p
          (rw (target_space-on s.id)
            (All_at (λ r. r.id ≢ "") g.spaces s (HasDistinctIds-named g.spaces d) i))
          (rw (target_space-on s.id, first_level-In g.spaces s d i) enough)),
  )

  call_of_scan :
      HasDistinctIds g.spaces
      → level_none < (tool_need name).space
      → some_space_at (tool_need name).space g.spaces ≡ true
      → HasCall g name
  call_of_scan d p h =
      let (s, i, enough) =
        Some-element (λ s. (tool_need name).space ≤ s.level) g.spaces
          ((some_space_at_iff (tool_need name).space g.spaces).0 h) in
      call_on s d i p enough

  call_of_shown : HasDistinctIds g.spaces → shows g name ≡ true → HasCall g name
  unfolding shows
  call_of_shown d h = elim (Bool-cases (is_ok (allow (some g) name empty_call))) [
    | inl e ↦ (empty_call, (is_ok_iff (allow (some g) name empty_call)).0 e)
    | inr e ↦ call_of_scan d (ground arith) (ground arith)
  ]

-- For a grant whose rows have distinct identifiers, tools/list shows a tool exactly if the server
-- has it and some call of it would pass the check.
pub visible_tools_iff :
    (g : Grant) (names : List String) (name : String)
    → HasDistinctIds g.spaces
    → In name (visible_tools (some g) names) ↔ (In name names × HasCall g name)
unfolding visible_tools
visible_tools_iff g names name d = (
  λ i. let (j, h) = keep-In (shows g) name names i in (j, call_of_shown g name d h),
  λ p. In-keep (shows g) name names p.0 (shown_of_call g name p.1),
)
