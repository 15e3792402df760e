-- ===== src/Examples/Codec.antt =====
-- A coding of lists of texts and numbers in one text, which stands in for encoding/json in the
-- examples.
use Prim.Native.Char.{Char, char, code, nul, IsLt}
use Prim.Native.Nat.{compare, Ordering, ◌/◌, ◌%◌}
use Prim.Native.String.{String}
use ocis_mcp_server.Base.{
  ℕ, zero, suc, ◌<◌, ◌≡◌, refl, ap, Option, none, some, List, [], ◌∷◌, arith, nat_eq, All,
  if◌then◌else◌,
}
use ocis_mcp_server.Base.Bytes.{Bytes, hex_digit, hex_encode}
use ocis_mcp_server.Base.Text.{codes}

abbrev IsBoth : Ordering → Ordering → Type 0
IsBoth Ordering.lt o = IsLt o
IsBoth Ordering.eq _ = ⊥
IsBoth Ordering.gt _ = ⊥

abbrev IsScalarOf : Ordering → Ordering → Ordering → Type 0
IsScalarOf Ordering.lt _ _ = Unit
IsScalarOf Ordering.eq o p = IsBoth o p
IsScalarOf Ordering.gt o p = IsBoth o p

abbrev both_or_nul : (o p : Ordering) → (IsBoth o p → Char) → Char
both_or_nul Ordering.lt Ordering.lt k = k tt
both_or_nul _ _ k = nul

abbrev or_nul : (n o p : Ordering) → (IsScalarOf n o p → Char) → Char
or_nul Ordering.lt o p k = k tt
or_nul Ordering.eq o p k = both_or_nul o p k
or_nul Ordering.gt o p k = both_or_nul o p k

-- the character of that number, or U+0000
abbrev pub char_of : ℕ → Char
char_of n = or_nul (compare n 55296) (compare 57343 n) (compare n 1114112) (char n)

both_or_nul-IsBoth :
    (o p : Ordering) (k : IsBoth o p → Char) (h : IsBoth o p) → both_or_nul o p k ≡ k h
both_or_nul-IsBoth Ordering.lt Ordering.lt k h = refl
both_or_nul-IsBoth Ordering.lt Ordering.eq k h = absurd h
both_or_nul-IsBoth Ordering.lt Ordering.gt k h = absurd h
both_or_nul-IsBoth Ordering.eq p k h = absurd h
both_or_nul-IsBoth Ordering.gt p k h = absurd h

or_nul-IsScalarOf :
    (n o p : Ordering) (k : IsScalarOf n o p → Char) (h : IsScalarOf n o p) → or_nul n o p k ≡ k h
or_nul-IsScalarOf Ordering.lt o p k h = refl
or_nul-IsScalarOf Ordering.eq o p k h = both_or_nul-IsBoth o p k h
or_nul-IsScalarOf Ordering.gt o p k h = both_or_nul-IsBoth o p k h

char_of-code : (c : Char) → char_of (code c) ≡ c
char_of-code (char n h) =
    or_nul-IsScalarOf (compare n 55296) (compare 57343 n) (compare n 1114112) (char n) h

abbrev pub of_codes : List ℕ → String
of_codes [] = String.[]
of_codes (n ∷ ns) = String.◌∷◌ (char_of n) (of_codes ns)

pub of_codes-codes : (s : String) → of_codes (codes s) ≡ s
of_codes-codes String.[] = refl
of_codes-codes (String.◌∷◌ c s) = cc (char_of-code c, of_codes-codes s)

-- x and the character for each character, two points at the end
abbrev enc_text : String → String → String
enc_text String.[] rest = String.◌∷◌ "." (String.◌∷◌ "." rest)
enc_text (String.◌∷◌ c s) rest = String.◌∷◌ "x" (String.◌∷◌ c (enc_text s rest))

abbrev enc_all : List String → String
enc_all [] = String.[]
enc_all (s ∷ ss) = enc_text s (enc_all ss)

abbrev start : Option (List String) → Option (List String)
start none = none
start (some ts) = some ("" ∷ ts)

abbrev push : Char → Option (List String) → Option (List String)
push c (some (t ∷ ts)) = some (String.◌∷◌ c t ∷ ts)
push c _ = none

unfoldable pub dec_all : String → Option (List String)
dec_all String.[] = some []
dec_all (String.◌∷◌ m String.[]) = none
dec_all (String.◌∷◌ m (String.◌∷◌ c s)) =
    let rest = dec_all s in if nat_eq (code m) b'.' then start rest else push c rest

dec_all-enc_text :
    (s rest : String) (ts : List String)
    → dec_all rest ≡ some ts
    → dec_all (enc_text s rest) ≡ some (s ∷ ts)
unfolding dec_all
dec_all-enc_text String.[] rest ts h = rw h
dec_all-enc_text (String.◌∷◌ c s) rest ts h = rw (dec_all-enc_text s rest ts h)

dec_all-enc_all : (ss : List String) → dec_all (enc_all ss) ≡ some ss
unfolding dec_all
dec_all-enc_all [] = refl
dec_all-enc_all (s ∷ ss) = dec_all-enc_text s (enc_all ss) ss (dec_all-enc_all ss)

abbrev pub encode_texts : List String → String
encode_texts ss = String.◌∷◌ "[" (enc_all ss)

unfoldable pub decode_texts : String → Option (List String)
unfolding dec_all
decode_texts String.[] = none
decode_texts (String.◌∷◌ c s) = dec_all s

pub decode_texts-encode : (ss : List String) → decode_texts (encode_texts ss) ≡ some ss
unfolding decode_texts
decode_texts-encode ss = dec_all-enc_all ss

-- a number in strokes
abbrev pub strokes : ℕ → String
strokes zero = String.[]
strokes (suc n) = String.◌∷◌ "x" (strokes n)

abbrev pub count : String → ℕ
count String.[] = zero
count (String.◌∷◌ c s) = suc (count s)

pub count-strokes : (n : ℕ) → count (strokes n) ≡ n
count-strokes zero = refl
count-strokes (suc n) = ap suc (count-strokes n)

code-digit : (n : ℕ) → n < 16 → code (char_of (hex_digit n)) ≡ hex_digit n
unfolding hex_digit
code-digit zero h = refl
code-digit (suc zero) h = refl
code-digit (suc (suc zero)) h = refl
code-digit (suc (suc (suc zero))) h = refl
code-digit (suc (suc (suc (suc zero)))) h = refl
code-digit (suc (suc (suc (suc (suc zero))))) h = refl
code-digit (suc (suc (suc (suc (suc (suc zero)))))) h = refl
code-digit (suc (suc (suc (suc (suc (suc (suc zero))))))) h = refl
code-digit (suc (suc (suc (suc (suc (suc (suc (suc zero)))))))) h = refl
code-digit (suc (suc (suc (suc (suc (suc (suc (suc (suc zero))))))))) h = refl
code-digit (suc (suc (suc (suc (suc (suc (suc (suc (suc (suc zero)))))))))) h = refl
code-digit (suc (suc (suc (suc (suc (suc (suc (suc (suc (suc (suc zero))))))))))) h = refl
code-digit (suc (suc (suc (suc (suc (suc (suc (suc (suc (suc (suc (suc zero)))))))))))) h = refl
code-digit (suc (suc (suc (suc (suc (suc (suc (suc (suc (suc (suc (suc (suc zero))))))))))))) h =
    refl
code-digit (suc (suc (suc (suc (suc (suc (suc (suc (suc (suc (suc (suc (suc (suc zero))))))))))))))
      h =
    refl
code-digit
      (suc (suc (suc (suc (suc (suc (suc (suc (suc (suc (suc (suc (suc (suc (suc zero)))))))))))))))
      h =
    refl
code-digit
      (suc
        (suc (suc (suc (suc (suc (suc (suc (suc (suc (suc (suc (suc (suc (suc (suc n))))))))))))))))
      h =
    absurd (omega arith)

pub codes-hex :
    (bs : Bytes) → All (λ b. b < 256) bs → codes (of_codes (hex_encode bs)) ≡ hex_encode bs
unfolding hex_encode
codes-hex [] h = refl
codes-hex (b ∷ bs) (p, h) =
    cc (code-digit (b / 16) (omega arith), code-digit (b % 16) (omega arith), codes-hex bs h)
