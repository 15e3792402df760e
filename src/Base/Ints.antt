-- ===== src/Base/Ints.antt =====
-- Go's `int` and `int64` over the native numbers, with the wrap-around at 64 bits, and their text.
use Prim.Native.Nat.{ℕ, zero, suc, ◌+◌, ◌-◌, ◌*◌, ◌/◌, ◌%◌}
use Prim.Native.String.{String, ◌++◌}
use mathlib.Core.Bool.{Bool, true, false}
use mathlib.Core.Option.{Option, none, some}
use mathlib.Core.List.{List, [], ◌∷◌}
use ocis_mcp_server.Base.Tests.{leb, ltb, nat_eq, if◌then◌else◌}

-- `negsuc n` is -(n + 1)
pub data ℤ : Type 0 where
  pos : ℕ → ℤ
  negsuc : ℕ → ℤ

abbrev pub word_size : ℕ
word_size = 18446744073709551616

abbrev pub max_int : ℕ
max_int = 9223372036854775807

-- the signed number that the low 64 bits spell
unfoldable pub of_word : ℕ → ℤ
of_word n = let w = n % word_size in if leb w max_int then pos w else negsuc (word_size - w - 1)

-- the low 64 bits of a number
unfoldable pub to_word : ℤ → ℕ
to_word (pos n) = n % word_size
to_word (negsuc n) = (word_size - suc n % word_size) % word_size

infixl 6 ◌+ℤ◌
unfoldable pub ◌+ℤ◌ : ℤ → ℤ → ℤ
unfolding of_word to_word
a +ℤ b = of_word (to_word a + to_word b)

infixl 7 ◌*ℤ◌
unfoldable pub ◌*ℤ◌ : ℤ → ℤ → ℤ
unfolding of_word to_word
a *ℤ b = of_word (to_word a * to_word b)

-- `a > 0`
unfoldable pub is_positive : ℤ → Bool
is_positive (pos n) = ltb 0 n
is_positive (negsuc n) = false

-- the text of the n-th character, empty past the end
unfoldable pub char_at : ℕ → String → String
char_at n String.[] = String.[]
char_at zero (String.◌∷◌ c s) = String.◌∷◌ c String.[]
char_at (suc n) (String.◌∷◌ c s) = char_at n s

-- fmt's %d; a number of 64 bits has at most 20 digits
unfoldable pub digits : ℕ → ℕ → String → String
unfolding char_at
digits zero n rest = rest
digits (suc fuel) n rest =
    let longer = char_at (n % 10) "0123456789" ++ rest in
    elim (ltb n 10) [ true ↦ longer | false ↦ digits fuel (n / 10) longer ]

unfoldable pub decimal : ℕ → String
unfolding digits
decimal n = digits 20 n ""

unfoldable pub decimal_int : ℤ → String
unfolding decimal
decimal_int (pos n) = decimal n
decimal_int (negsuc n) = "-" ++ decimal (suc n)

-- strconv.Atoi: an optional sign, then digits only, at least one, of a number that fits in 64 bits
unfoldable pub parse_digits : ℕ → List ℕ → Option ℕ
parse_digits n [] = some n
parse_digits n (c ∷ s) = elim (leb b'0' c) [
  | false ↦ none
  | true ↦ elim (leb c b'9') [ false ↦ none | true ↦ parse_digits (10 * n + (c - b'0')) s ]
]

unfoldable pub fits : Bool → Option ℕ → Option ℤ
fits negative none = none
fits false (some n) = if leb n max_int then some (pos n) else none
fits true (some zero) = some (pos 0)
fits true (some (suc n)) = if leb n max_int then some (negsuc n) else none

unfoldable pub parse_unsigned : List ℕ → Option ℕ
unfolding parse_digits
parse_unsigned [] = none
parse_unsigned (c ∷ s) = parse_digits 0 (c ∷ s)

unfoldable pub atoi : List ℕ → Option ℤ
unfolding parse_unsigned fits
atoi [] = none
atoi (c ∷ s) =
    if nat_eq c b'-'
    then fits true (parse_unsigned s)
    else if nat_eq c b'+'
    then fits false (parse_unsigned s)
    else fits false (parse_unsigned (c ∷ s))
