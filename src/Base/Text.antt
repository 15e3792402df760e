-- ===== src/Base/Text.antt =====
-- What the program uses of Go's `strings` package, character by character. A Go string holds bytes
-- and these functions read its UTF-8; a text here is its list of code points.
use Prim.Native.Char.{Char, code}
use Prim.Native.Nat.{ℕ, zero, suc, ◌+◌}
use Prim.Native.String.{String, ◌++◌}
use mathlib.Core.Path.{◌≡◌}
use mathlib.Core.Logic.{◌↔◌, ◌≢◌}
use mathlib.Core.Option.{Option, none, some}
use text.Mathlib.TextLemmas.{nil-append, cons-append}
use mathlib.Core.Bool.{Bool, true, false, ◌&&◌, ◌||◌}
use mathlib.Core.List.{List, [], ◌∷◌}
use native.Mathlib.Omega.{arith}
use ocis_mcp_server.Base.Tests.{leb, nat_eq, if◌then◌else◌}
use ocis_mcp_server.Base.Lists.{length}

abbrev pub codes : String → List ℕ
codes String.[] = []
codes (String.◌∷◌ c s) = code c ∷ codes s

unfoldable pub same : List ℕ → List ℕ → Bool
same [] [] = true
same (a ∷ s) (b ∷ t) = nat_eq a b && same s t
same _ _ = false

-- unicode.IsSpace
unfoldable pub is_space : ℕ → Bool
is_space c =
    (leb 9 c && leb c 13)
    || nat_eq c 32
    || nat_eq c 0x85
    || nat_eq c 0xa0
    || nat_eq c 0x1680
    || (leb 0x2000 c && leb c 0x200a)
    || nat_eq c 0x2028
    || nat_eq c 0x2029
    || nat_eq c 0x202f
    || nat_eq c 0x205f
    || nat_eq c 0x3000

-- strings.ToLower, as far as a comparison with an ASCII word can see: the capital letters, and the
-- two other characters whose lower case is ASCII (the Kelvin sign and the dotted capital I).
unfoldable pub lower_code : ℕ → ℕ
lower_code c =
    if leb b'A' c && leb c b'Z'
    then c + 32
    else if nat_eq c 0x212a
    then b'k'
    else if nat_eq c 0x130
    then b'i'
    else c

-- The folding of strings.EqualFold, as far as a comparison with an ASCII word can see.
unfoldable pub fold_code : ℕ → ℕ
fold_code c =
    if leb b'A' c && leb c b'Z'
    then c + 32
    else if nat_eq c 0x212a
    then b'k'
    else if nat_eq c 0x17f
    then b's'
    else c

unfoldable pub map_codes : (ℕ → ℕ) → List ℕ → List ℕ
map_codes f [] = []
map_codes f (c ∷ s) = f c ∷ map_codes f s

unfoldable pub drop_while : (ℕ → Bool) → List ℕ → List ℕ
drop_while p [] = []
drop_while p (c ∷ s) = let rest = drop_while p s in if p c then rest else c ∷ s

-- the text without the longest tail that passes
unfoldable pub drop_while_end : (ℕ → Bool) → List ℕ → List ℕ
drop_while_end p [] = []
drop_while_end p (c ∷ s) = elim (drop_while_end p s) [
  | [] ↦ if p c then [] else c ∷ []
  | d ∷ r ↦ c ∷ d ∷ r
]

unfoldable pub trim_space : List ℕ → List ℕ
unfolding drop_while drop_while_end is_space
trim_space s = drop_while_end is_space (drop_while is_space s)

unfoldable pub has_prefix : List ℕ → List ℕ → Bool
has_prefix s [] = true
has_prefix [] (c ∷ p) = false
has_prefix (d ∷ s) (c ∷ p) = nat_eq d c && has_prefix s p

unfoldable pub contains : List ℕ → List ℕ → Bool
contains [] p = has_prefix [] p
contains (c ∷ s) p = has_prefix (c ∷ s) p || contains s p

unfoldable pub drop : ℕ → List ℕ → List ℕ
drop zero s = s
drop (suc n) [] = []
drop (suc n) (c ∷ s) = drop n s

unfoldable pub trim_prefix : List ℕ → List ℕ → List ℕ
trim_prefix s p = if has_prefix s p then drop (length p) s else s

unfoldable pub without_code : ℕ → List ℕ → List ℕ
without_code a [] = []
without_code a (c ∷ s) = let rest = without_code a s in if nat_eq c a then rest else c ∷ rest

-- The test is for equality.
pub same_iff : (s t : List ℕ) → (same s t ≡ true) ↔ (s ≡ t)
unfolding same
same_iff [] [] = ground arith
same_iff [] (b ∷ t) = ground arith
same_iff (a ∷ s) [] = ground arith
same_iff (a ∷ s) (b ∷ t) = ground (arith, same_iff s t)

-- The text is one of these words.
unfoldable pub one_of : List ℕ → List String → Bool
one_of s [] = false
one_of s (w ∷ ws) = same s (codes w) || one_of s ws

-- Some of these words occurs in the text.
unfoldable pub has_some : List ℕ → List String → Bool
has_some s [] = false
has_some s (w ∷ ws) = contains s (codes w) || has_some s ws

-- strings.TrimRight(s, "/") and its like, for one character
unfoldable pub trim_right : ℕ → String → String
trim_right a String.[] = String.[]
trim_right a (String.◌∷◌ c s) = elim (trim_right a s) [
  | String.[] ↦ if nat_eq (code c) a then String.[] else String.◌∷◌ c String.[]
  | String.◌∷◌ d r ↦ String.◌∷◌ c (String.◌∷◌ d r)
]

-- s[:n], of a text of ASCII characters
unfoldable pub take_text : ℕ → String → String
take_text zero s = String.[]
take_text (suc n) String.[] = String.[]
take_text (suc n) (String.◌∷◌ c s) = String.◌∷◌ c (take_text n s)

unfoldable pub cut_cons : Char → Option (String × String) → Option (String × String)
cut_cons c none = none
cut_cons c (some (before, after)) = some (String.◌∷◌ c before, after)

-- strings.Cut at a character: the texts before and after its first occurrence
unfoldable pub cut : ℕ → String → Option (String × String)
cut a String.[] = none
cut a (String.◌∷◌ c s) =
    let rest = cut_cons c (cut a s) in if nat_eq (code c) a then some (String.[], s) else rest

-- The character occurs nowhere in the text.
abbrev pub Lacks : ℕ → String → Type 0
Lacks a String.[] = Unit
Lacks a (String.◌∷◌ c s) = (code c ≢ a) × Lacks a s

pub cut-append :
    (a : ℕ) (c : Char) (s t : String)
    → code c ≡ a
    → Lacks a s
    → cut a (s ++ String.◌∷◌ c t) ≡ some (s, t)
unfolding cut cut_cons
cut-append a c String.[] t e h = rw nil-append (ground arith)
cut-append a c (String.◌∷◌ d s) t e (p, h) = rw cons-append (ground (arith, cut-append a c s t e h))

unfoldable pub drop_text : ℕ → String → String
drop_text zero s = s
drop_text (suc n) String.[] = String.[]
drop_text (suc n) (String.◌∷◌ c s) = drop_text n s

unfoldable pub trim_left_text : String → String
trim_left_text String.[] = String.[]
trim_left_text (String.◌∷◌ c s) =
    let rest = trim_left_text s in if is_space (code c) then rest else String.◌∷◌ c s

unfoldable pub trim_right_text : String → String
trim_right_text String.[] = String.[]
trim_right_text (String.◌∷◌ c s) = elim (trim_right_text s) [
  | String.[] ↦ if is_space (code c) then String.[] else String.◌∷◌ c String.[]
  | String.◌∷◌ d r ↦ String.◌∷◌ c (String.◌∷◌ d r)
]

-- strings.TrimSpace, as a text
unfoldable pub trim_text : String → String
unfolding trim_left_text trim_right_text
trim_text s = trim_right_text (trim_left_text s)

-- strings.ContainsAny with one character
unfoldable pub any_code : ℕ → List ℕ → Bool
any_code a [] = false
any_code a (c ∷ s) = nat_eq c a || any_code a s

-- strings.TrimLeft(s, "/") and its like, for one character
unfoldable pub trim_left : ℕ → String → String
trim_left a String.[] = String.[]
trim_left a (String.◌∷◌ c s) =
    let rest = trim_left a s in if nat_eq (code c) a then rest else String.◌∷◌ c s
