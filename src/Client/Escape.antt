-- ===== src/Client/Escape.antt =====
-- url.PathEscape of net/url and xml.EscapeText of encoding/xml, which internal/client and
-- internal/tools put between a caller's text and oCIS.
use Prim.Native.Char.{Char, code}
use Prim.Native.Nat.{◌/◌, ◌%◌}
use Prim.Native.String.{◌++◌}
use text.Mathlib.TextLemmas.{nil-append, cons-append}
use ocis_mcp_server.Base.{
  ℕ, zero, suc, ◌+◌, String, ◌≡◌, refl, ◌≢◌, not, if_elim, Bool, true, false, ◌&&◌, ◌||◌, List, [],
  ◌∷◌, nat_eq, leb, ltb, if◌then◌else◌, arith, inl, inr, Bool-cases,
}
use ocis_mcp_server.Base.Ints.{char_at}
use ocis_mcp_server.Base.Text.{Lacks}

-- The UTF-8 bytes of a code point.
unfoldable pub utf8 : ℕ → List ℕ
utf8 c =
    if ltb c 0x80
    then c ∷ []
    else if ltb c 0x800
    then (0xc0 + c / 64) ∷ (0x80 + c % 64) ∷ []
    else if ltb c 0x10000
    then (0xe0 + c / 4096) ∷ (0x80 + c / 64 % 64) ∷ (0x80 + c % 64) ∷ []
    else (0xf0 + c / 262144) ∷ (0x80 + c / 4096 % 64) ∷ (0x80 + c / 64 % 64) ∷ (0x80 + c % 64) ∷ []

-- the characters that stay as they are in a segment of a path
unfoldable pub path_safe : ℕ → Bool
path_safe c =
    (leb b'a' c && leb c b'z')
    || (leb b'A' c && leb c b'Z')
    || (leb b'0' c && leb c b'9')
    || nat_eq c b'-'
    || nat_eq c b'_'
    || nat_eq c b'.'
    || nat_eq c b'~'
    || nat_eq c b'$'
    || nat_eq c b'&'
    || nat_eq c b'+'
    || nat_eq c b':'
    || nat_eq c b'='
    || nat_eq c b'@'

unfoldable pub percent_bytes : List ℕ → String
unfolding char_at
percent_bytes [] = ""
percent_bytes (b ∷ bs) =
    "%"
    ++ (char_at (b / 16) "0123456789ABCDEF"
        ++ (char_at (b % 16) "0123456789ABCDEF" ++ percent_bytes bs))

unfoldable pub path_escape_char : Char → String
unfolding path_safe utf8 percent_bytes
path_escape_char c = if path_safe (code c) then String.◌∷◌ c "" else percent_bytes (utf8 (code c))

-- url.PathEscape
unfoldable pub path_escape : String → String
unfolding path_escape_char
path_escape String.[] = ""
path_escape (String.◌∷◌ c s) = path_escape_char c ++ path_escape s

-- a character that XML allows
unfoldable pub xml_char : ℕ → Bool
xml_char c =
    nat_eq c 9
    || nat_eq c 10
    || nat_eq c 13
    || (leb 0x20 c && leb c 0xd7ff)
    || (leb 0xe000 c && leb c 0xfffd)
    || leb 0x10000 c

unfoldable pub xml_escape_char : Char → String
unfolding xml_char
xml_escape_char c =
    if nat_eq (code c) b'"'
    then "&#34;"
    else if nat_eq (code c) 39
    then "&#39;"
    else if nat_eq (code c) b'&'
    then "&amp;"
    else if nat_eq (code c) b'<'
    then "&lt;"
    else if nat_eq (code c) b'>'
    then "&gt;"
    else if nat_eq (code c) 9
    then "&#x9;"
    else if nat_eq (code c) 10
    then "&#xA;"
    else if nat_eq (code c) 13
    then "&#xD;"
    else if xml_char (code c)
    then String.◌∷◌ c ""
    else "�"

-- `xmlEscape`
unfoldable pub xml_escape : String → String
unfolding xml_escape_char
xml_escape String.[] = ""
xml_escape (String.◌∷◌ c s) = xml_escape_char c ++ xml_escape s

Lacks-append : (a : ℕ) (s t : String) → Lacks a s → Lacks a t → Lacks a (s ++ t)
Lacks-append a String.[] t h k = rw nil-append k
Lacks-append a (String.◌∷◌ c s) t (p, h) k = rw cons-append (p, Lacks-append a s t h k)

Lacks-char_at : (a n : ℕ) (s : String) → Lacks a s → Lacks a (char_at n s)
unfolding char_at
Lacks-char_at a n String.[] h = tt
Lacks-char_at a zero (String.◌∷◌ c s) (p, h) = (p, tt)
Lacks-char_at a (suc n) (String.◌∷◌ c s) (p, h) = Lacks-char_at a n s h

-- A character that PathEscape replaces, and that is not the sign of a replacement.
abbrev pub IsReplaced : ℕ → Type 0
IsReplaced a = (path_safe a ≡ false) × (a ≢ b'%')

Lacks-percent_bytes :
    (a : ℕ) (bs : List ℕ) → a ≢ b'%' → Lacks a "0123456789ABCDEF" → Lacks a (percent_bytes bs)
unfolding percent_bytes
Lacks-percent_bytes a [] q digits = tt
Lacks-percent_bytes a (b ∷ bs) q digits =
    Lacks-append a "%" _ ((λ e. q (omega (arith, e))), tt)
      (Lacks-append a _ _ (Lacks-char_at a (b / 16) "0123456789ABCDEF" digits) (
        Lacks-append a _ _ (Lacks-char_at a (b % 16) "0123456789ABCDEF" digits)
          (Lacks-percent_bytes a bs q digits)))

safe_char-differs : (a c : ℕ) → path_safe a ≡ false → path_safe c ≡ true → c ≢ a
safe_char-differs a c p q e = ground (arith, e, p, q)

Lacks-hex_digits : (a : ℕ) → path_safe a ≡ false → Lacks a "0123456789ABCDEF"
unfolding path_safe
Lacks-hex_digits a p =
    let d : (c : ℕ) → path_safe c ≡ true → c ≢ a = λ c q. safe_char-differs a c p q in
    (
      d 48 refl,
      (
        d 49 refl,
        (
          d 50 refl,
          (
            d 51 refl,
            (
              d 52 refl,
              (
                d 53 refl,
                (
                  d 54 refl,
                  (
                    d 55 refl,
                    (
                      d 56 refl,
                      (
                        d 57 refl,
                        (
                          d 65 refl,
                          (d 66 refl, (d 67 refl, (d 68 refl, (d 69 refl, (d 70 refl, tt))))),
                        ),
                      ),
                    ),
                  ),
                ),
              ),
            ),
          ),
        ),
      ),
    )

Lacks-path_escape_char : (a : ℕ) (c : Char) → IsReplaced a → Lacks a (path_escape_char c)
unfolding path_escape_char
Lacks-path_escape_char a c (p, q) = elim (Bool-cases (path_safe (code c))) [
  | inl e ↦ rw e ((λ same. safe_char-differs a (code c) p e same), tt)
  | inr e ↦ rw e (Lacks-percent_bytes a (utf8 (code c)) q (Lacks-hex_digits a p))
]

pub Lacks-path_escape : (a : ℕ) (s : String) → IsReplaced a → Lacks a (path_escape s)
unfolding path_escape
Lacks-path_escape a String.[] h = tt
Lacks-path_escape a (String.◌∷◌ c s) h =
    Lacks-append a _ _ (Lacks-path_escape_char a c h) (Lacks-path_escape a s h)

unfoldable lacks : ℕ → String → Bool
lacks a String.[] = true
lacks a (String.◌∷◌ c s) = not (nat_eq (code c) a) && lacks a s

lacks_sound : (a : ℕ) (s : String) → lacks a s ≡ true → Lacks a s
unfolding lacks
lacks_sound a String.[] h = tt
lacks_sound a (String.◌∷◌ c s) h =
    let both : (not (nat_eq (code c) a) ≡ true) × (lacks a s ≡ true) = ground arith in
    ((λ e. ground (arith, e, both.0)), lacks_sound a s both.1)

Lacks-xml_escape_char : (c : Char) → Lacks b'<' (xml_escape_char c)
unfolding xml_escape_char lacks
Lacks-xml_escape_char c =
    let P : String → Type 0 = λ s. Lacks b'<' s in
    let differs : (a : ℕ) → nat_eq a b'<' ≡ false → a ≢ b'<' = λ a h e. ground (arith, h, e) in
    let lit : (s : String) → lacks b'<' s ≡ true → Lacks b'<' s = lacks_sound b'<' in
    let test : ℕ → Bool = λ a. nat_eq (code c) a in
    elim (Bool-cases (test b'<')) [
      | inl e ↦ rw e (
          if_elim P (test b'"') (lit "&#34;" refl) (
            if_elim P (test 39) (lit "&#39;" refl)
              (if_elim P (test b'&') (lit "&amp;" refl) (lit "&lt;" refl))))
      | inr e ↦ rw e (
          if_elim P (test b'"') (lit "&#34;" refl) (
            if_elim P (test 39) (lit "&#39;" refl) (
              if_elim P (test b'&') (lit "&amp;" refl) (
                if_elim P (test b'>') (lit "&gt;" refl) (
                  if_elim P (test 9) (lit "&#x9;" refl) (
                    if_elim P (test 10) (lit "&#xA;" refl) (
                      if_elim P (test 13) (lit "&#xD;" refl) (
                        if_elim P (xml_char (code c)) (differs (code c) e, tt)
                          (lit "�" refl)))))))))
    ]

-- An escaped text has no character that opens a tag.
pub Lacks-xml_escape : (s : String) → Lacks b'<' (xml_escape s)
unfolding xml_escape
Lacks-xml_escape String.[] = tt
Lacks-xml_escape (String.◌∷◌ c s) =
    Lacks-append b'<' _ _ (Lacks-xml_escape_char c) (Lacks-xml_escape s)
