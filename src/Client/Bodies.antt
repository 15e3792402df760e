-- ===== src/Client/Bodies.antt =====
-- The XML bodies of internal/client/webdav.go: a caller's text stays inside the element that it is for.
use Prim.Native.Char.{code}
use Prim.Native.String.{◌++◌}
use text.Mathlib.TextLemmas.{nil-append, cons-append}
use ocis_mcp_server.Base.{
  ℕ, ◌+◌, ◌≡◌, refl, String, List, [], ◌∷◌, map, nat_eq, if◌then◌else◌, arith,
}
use ocis_mcp_server.Base.Ints.{ℤ}
use ocis_mcp_server.Base.Text.{Lacks}
use ocis_mcp_server.Client.Escape.{xml_escape, Lacks-xml_escape}
use ocis_mcp_server.Client.Webdav.{search_body, proppatch_body, prop_entries}

-- how often a character occurs
unfoldable pub count : ℕ → String → ℕ
count a String.[] = 0
count a (String.◌∷◌ c s) = let rest = count a s in if nat_eq (code c) a then 1 + rest else rest

count-append : (a : ℕ) (s t : String) → count a (s ++ t) ≡ count a s + count a t
unfolding count
count-append a String.[] t = rw nil-append (omega arith)
count-append a (String.◌∷◌ c s) t = rw cons-append (ground (arith, count-append a s t))

count-Lacks : (a : ℕ) (s : String) → Lacks a s → count a s ≡ 0
unfolding count
count-Lacks a String.[] h = refl
count-Lacks a (String.◌∷◌ c s) (p, h) = ground (arith, p, count-Lacks a s h)

-- two texts with as many tags
abbrev SameTags : String → String → Type 0
SameTags s t = count b'<' s ≡ count b'<' t

append-SameTags : (s t u : String) → SameTags t u → SameTags (s ++ t) (s ++ u)
append-SameTags s t u h = omega (arith, count-append b'<' s t, count-append b'<' s u, h)

escape-SameTags :
    (v w t u : String) → SameTags t u → SameTags (xml_escape v ++ t) (xml_escape w ++ u)
escape-SameTags v w t u h = omega (
  arith,
  count-append b'<' (xml_escape v) t,
  count-append b'<' (xml_escape w) u,
  count-Lacks b'<' (xml_escape v) (Lacks-xml_escape v),
  count-Lacks b'<' (xml_escape w) (Lacks-xml_escape w),
  h,
)

-- the same properties with no values
abbrev pub without_values : List (String × String) → List (String × String)
without_values = map λ p. (p.0, "")

prop_entries-SameTags :
    (props : List (String × String))
    → SameTags (prop_entries props) (prop_entries (without_values props))
unfolding prop_entries
prop_entries-SameTags [] = refl
prop_entries-SameTags ((k, v) ∷ rest) =
    let later = prop_entries-SameTags rest in search (escape-SameTags, append-SameTags) depth 12

append_left : (s t u : String) → SameTags s t → SameTags (s ++ u) (t ++ u)
append_left s t u h = omega (arith, count-append b'<' s u, count-append b'<' t u, h)

proppatch_body-SameTags :
    (props : List (String × String))
    → SameTags (proppatch_body props) (proppatch_body (without_values props))
unfolding proppatch_body
proppatch_body-SameTags props =
    let entries =
      append_left (prop_entries props) (prop_entries (without_values props))
        "\n    </d:prop>\n  </d:set>\n</d:propertyupdate>" (prop_entries-SameTags props) in
    search append-SameTags depth 12

-- The second text with so many more of a character is the first.
abbrev Adds : ℕ → ℕ → String → String → Type 0
Adds a n s t = count a s ≡ count a t + n

append-Adds : (a n : ℕ) (s t u : String) → Adds a n t u → Adds a n (s ++ t) (s ++ u)
append-Adds a n s t u h = omega (arith, count-append a s t, count-append a s u, h)

escape-Adds :
    (a : ℕ) (v t : String)
    → Adds a (count a (xml_escape v)) (xml_escape v ++ t) (xml_escape "" ++ t)
unfolding xml_escape count
escape-Adds a v t = omega (arith, count-append a (xml_escape v) t, count-append a "" t)

search_body-Adds :
    (a : ℕ) (pattern : String) (limit : ℕ) (offset : ℤ)
    → Adds a
        (count a (xml_escape pattern))
        (search_body pattern limit offset)
        (search_body "" limit offset)
unfolding search_body
search_body-Adds a pattern limit offset = search (escape-Adds, append-Adds) depth 60

-- A REPORT holds what it holds without a pattern and the characters of the escaped pattern, none of
-- which opens a tag, and a PROPPATCH opens as many tags as with no values: no text of a caller adds a
-- tag to a body. (The names of the properties are not the caller's.)
pub bodies-SameTags :
    (pattern : String) (limit : ℕ) (offset : ℤ) (props : List (String × String))
    → ((a : ℕ)
        → count a (search_body pattern limit offset)
          ≡ count a (search_body "" limit offset) + count a (xml_escape pattern))
      × (count b'<' (xml_escape pattern) ≡ 0)
      × (count b'<' (proppatch_body props) ≡ count b'<' (proppatch_body (without_values props)))
bodies-SameTags pattern limit offset props = (
  λ a. search_body-Adds a pattern limit offset,
  count-Lacks b'<' (xml_escape pattern) (Lacks-xml_escape pattern),
  proppatch_body-SameTags props,
)
