-- ===== src/Client/Names.antt =====
-- The name that internal/client/webdav.go takes from an address.
use Prim.Native.Char.{Char, code}
use Prim.Native.String.{◌++◌}
use text.Mathlib.TextLemmas.{nil-append, cons-append}
use ocis_mcp_server.Base.{
  ℕ, ◌≡◌, ◌≢◌, refl, ap, ◌∙◌, String, none, some, nat_eq, arith, if◌then◌else◌,
}
use ocis_mcp_server.Base.Text.{Lacks, trim_right}
use ocis_mcp_server.Client.FileInfo.{after_last, name_from_href}

-- The text has no other character.
abbrev pub IsOnly : ℕ → String → Type 0
IsOnly a String.[] = Unit
IsOnly a (String.◌∷◌ c s) = (code c ≡ a) × IsOnly a s

-- trim_right at a character in front of a text, by what it makes of the text
kept_front : ℕ → Char → String → String
kept_front a c String.[] = if nat_eq (code c) a then "" else String.◌∷◌ c ""
kept_front a c (String.◌∷◌ d s) = String.◌∷◌ c (String.◌∷◌ d s)

trim_right-front :
    (a : ℕ) (c : Char) (s : String)
    → trim_right a (String.◌∷◌ c s) ≡ kept_front a c (trim_right a s)
unfolding trim_right kept_front
trim_right-front a c s = by_rest (trim_right a s)
  where
    by_rest :
        (r : String)
        → elim r [
          | String.[] ↦ if nat_eq (code c) a then String.[] else String.◌∷◌ c String.[]
          | String.◌∷◌ d t ↦ String.◌∷◌ c (String.◌∷◌ d t)
        ]
          ≡ kept_front a c r
    by_rest String.[] = refl
    by_rest (String.◌∷◌ d t) = refl

trim_right-only : (a : ℕ) (s : String) → IsOnly a s → trim_right a s ≡ ""
unfolding kept_front trim_right
trim_right-only a String.[] h = refl
trim_right-only a (String.◌∷◌ c s) (p, h) =
    trim_right-front a c s ∙ (ap (kept_front a c) (trim_right-only a s h) ∙ ground (arith, p))

kept_front-Lacks : (a : ℕ) (c : Char) (t : String) → code c ≢ a → kept_front a c t ≡ String.◌∷◌ c t
unfolding kept_front
kept_front-Lacks a c String.[] p = ground (arith, p)
kept_front-Lacks a c (String.◌∷◌ d t) p = refl

-- a name with such characters behind it
trim_right-Lacks :
    (a : ℕ) (t tail : String) → Lacks a t → IsOnly a tail → trim_right a (t ++ tail) ≡ t
trim_right-Lacks a String.[] tail h only = rw nil-append (trim_right-only a tail only)
trim_right-Lacks a (String.◌∷◌ c t) tail (p, h) only = rw cons-append (
    trim_right-front a c (t ++ tail)
    ∙ (ap (kept_front a c) (trim_right-Lacks a t tail h only) ∙ kept_front-Lacks a c t p))

kept_front-cons :
    (a : ℕ) (c d : Char) (t : String)
    → kept_front a c (String.◌∷◌ d t) ≡ String.◌∷◌ c (String.◌∷◌ d t)
unfolding kept_front
kept_front-cons a c d t = refl

kept_front-append :
    (a : ℕ) (c : Char) (s : String) (d : Char) (t : String)
    → kept_front a c (s ++ String.◌∷◌ d t) ≡ String.◌∷◌ c (s ++ String.◌∷◌ d t)
unfolding kept_front
kept_front-append a c String.[] d t = rw nil-append refl
kept_front-append a c (String.◌∷◌ e s) d t = rw cons-append refl

trim_right-behind :
    (a : ℕ) (s : String) (d : Char) (t u : String)
    → trim_right a u ≡ String.◌∷◌ d t
    → trim_right a (s ++ u) ≡ s ++ String.◌∷◌ d t
trim_right-behind a String.[] d t u e = rw (nil-append, nil-append) e
trim_right-behind a (String.◌∷◌ c s) d t u e =
    rw (cons-append, cons-append)
      (trim_right-front a c (s ++ u)
        ∙ (ap (kept_front a c) (trim_right-behind a s d t u e) ∙ kept_front-append a c s d t))

after_last-Lacks : (a : ℕ) (t : String) → Lacks a t → after_last a t ≡ none
unfolding after_last
after_last-Lacks a String.[] h = refl
after_last-Lacks a (String.◌∷◌ c t) (p, h) =
    rw (after_last-Lacks a t h, after_last) (ground (arith, p))

after_last-append :
    (a : ℕ) (s : String) (c : Char) (t : String)
    → code c ≡ a
    → Lacks a t
    → after_last a (s ++ String.◌∷◌ c t) ≡ some t
unfolding after_last
after_last-append a String.[] c t e h =
    rw (nil-append, after_last-Lacks a t h, after_last) (ground (arith, e))
after_last-append a (String.◌∷◌ d s) c t e h =
    rw (cons-append, after_last-append a s c t e h, after_last) refl

name_at :
    (href trimmed : String)
    → trim_right b'/' href ≡ trimmed
    → (name : String) → after_last b'/' trimmed ≡ some name
    → name_from_href href ≡ name
unfolding name_from_href
name_at href trimmed e name k = ground (arith, e, k)

-- The name is the last segment of the address: what stands between its last slash and the slashes at
-- its end, if that is not empty and has no slash itself.
pub name_from_href-last :
    (folder : String) (slash first : Char) (rest slashes : String)
    → code slash ≡ b'/'
    → Lacks b'/' (String.◌∷◌ first rest)
    → IsOnly b'/' slashes
    → name_from_href (folder ++ String.◌∷◌ slash (String.◌∷◌ first rest ++ slashes))
      ≡ String.◌∷◌ first rest
name_from_href-last folder slash first rest slashes e h only =
    let name = String.◌∷◌ first rest in
    let trimmed : trim_right b'/' (folder ++ String.◌∷◌ slash (name ++ slashes))
        ≡ folder ++ String.◌∷◌ slash name =
      trim_right-behind b'/' folder slash name (String.◌∷◌ slash (name ++ slashes)) (
        trim_right-front b'/' slash (name ++ slashes)
        ∙ (ap (kept_front b'/' slash) (trim_right-Lacks b'/' name slashes h only)
            ∙ kept_front-cons b'/' slash first rest)) in
    name_at _ _ trimmed name (after_last-append b'/' folder slash name e h)
