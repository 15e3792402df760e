-- ===== src/Examples/World.antt =====
-- Libraries and answers of the world for the examples: functions that have what the records of
-- laws ask of the real ones.
use ocis_mcp_server.Base.{
  ℕ, zero, suc, ◌+◌, ◌<◌, ◌≤◌, String, ◌≡◌, ◌≢◌, ◌↔◌, refl, ap, Bool, true, ◌&&◌, ◌==◌, Option,
  none, some, List, [], ◌∷◌, arith, In, leb, ltb, any, eq_iff, Some-map, any_sound, any_complete,
}
use ocis_mcp_server.Base.Bytes.{Bytes, hex_encode}
use ocis_mcp_server.Base.Text.{codes}
use ocis_mcp_server.Grant.Level.{SpaceGrant}
use ocis_mcp_server.Secretbox.{Primitives}
use ocis_mcp_server.Store.Db.{Externals, OcisTok}
use ocis_mcp_server.Oauth.Pkce.{Encoding}
use ocis_mcp_server.Oauth.Jwt.{JwtLibrary, Holds, AccessClaims, SigningMethod, hs256}
use ocis_mcp_server.Examples.Codec.{
  of_codes, of_codes-codes, encode_texts, decode_texts, decode_texts-encode, strokes, count,
  count-strokes, codes-hex,
}

abbrev pub repeat : ℕ → ℕ → Bytes
repeat zero b = []
repeat (suc n) b = b ∷ repeat n b

abbrev pub plain_box : Primitives
plain_box = record {
  gcm_seal = λ key nonce plaintext. plaintext;
  gcm_open = λ key nonce ciphertext. some ciphertext;
  gcm_open-seal = λ key nonce plaintext. refl;
  hkdf = λ master info. master;
  base64_std = λ s. none;
  base64_raw = λ s. none;
}

abbrev pub fields_of_spaces : List SpaceGrant → List String
fields_of_spaces [] = []
fields_of_spaces (s ∷ ss) =
    s.id
    ∷ s.name
    ∷ s.drive_type
    ∷ strokes s.level
    ∷ strokes s.ceiling
    ∷ s.description
    ∷ fields_of_spaces ss

abbrev pub spaces_of_fields : List String → List SpaceGrant
spaces_of_fields (i ∷ n ∷ t ∷ l ∷ c ∷ d ∷ rest) =
    record { id = i; name = n; drive_type = t; level = count l; ceiling = count c; description = d }
    ∷ spaces_of_fields rest
spaces_of_fields _ = []

pub spaces_of_fields_of : (ss : List SpaceGrant) → spaces_of_fields (fields_of_spaces ss) ≡ ss
spaces_of_fields_of [] = refl
spaces_of_fields_of (s ∷ ss) =
    rw (count-strokes s.level, count-strokes s.ceiling, spaces_of_fields_of ss)

abbrev pub map_option {ℓ κ} : {A : Type ℓ} {B : Type κ} → (A → B) → Option A → Option B
map_option f none = none
map_option f (some a) = some (f a)

abbrev tok_of_fields : List String → OcisTok
tok_of_fields (a ∷ r ∷ e ∷ []) = record { access = a; refresh = r; expiry = count e }
tok_of_fields _ = record { access = ""; refresh = ""; expiry = 0 }

abbrev encode_tok : OcisTok → Bytes
encode_tok t = codes (encode_texts (t.access ∷ t.refresh ∷ strokes t.expiry ∷ []))

abbrev decode_tok : Bytes → Option OcisTok
decode_tok b = map_option tok_of_fields (decode_texts (of_codes b))

pub decode_tok-encode : (t : OcisTok) → decode_tok (encode_tok t) ≡ some t
decode_tok-encode t = rw (
  of_codes-codes (encode_texts (t.access ∷ t.refresh ∷ strokes t.expiry ∷ [])),
  decode_texts-encode (t.access ∷ t.refresh ∷ strokes t.expiry ∷ []),
  count-strokes t.expiry,
)

pub encode_texts-ne : (ss : List String) → encode_texts ss ≢ ""
encode_texts-ne ss e = cc

instance abbrev pub plain_externals : Externals
plain_externals = record {
  box = plain_box;
  sha256 = λ s. codes s;
  hex_string = λ b. of_codes (hex_encode b);
  codes-hex_string = codes-hex;
  encode_uris = encode_texts;
  decode_uris = decode_texts;
  decode-encode_uris = decode_texts-encode;
  encode_spaces = λ ss. encode_texts (fields_of_spaces ss);
  decode_spaces = λ s. map_option spaces_of_fields (decode_texts s);
  decode-encode_spaces =
      λ ss. rw (decode_texts-encode (fields_of_spaces ss), spaces_of_fields_of ss);
  encode_spaces-ne = λ ss. encode_texts-ne (fields_of_spaces ss);
  encode_tok = encode_tok;
  decode_tok = decode_tok;
  decode-encode_tok = decode_tok-encode;
}

instance abbrev pub plain_encoding : Encoding
plain_encoding = record { base64_url = λ b. of_codes b }

abbrev in_time : (ℕ → Bool) → Option ℕ → Bool
in_time p none = true
in_time p (some n) = p n

in_time_iff :
    (P : ℕ → Type 0) (p : ℕ → Bool) (o : Option ℕ)
    → ((n : ℕ) → (p n ≡ true) ↔ P n)
    → (in_time p o ≡ true) ↔ Holds P o
in_time_iff P p none h = (λ e. tt, λ u. refl)
in_time_iff P p (some n) h = h n

abbrev stamp_text : Option ℕ → String
stamp_text none = ""
stamp_text (some n) = strokes (suc n)

abbrev text_stamp : String → Option ℕ
text_stamp String.[] = none
text_stamp (String.◌∷◌ c s) = some (count s)

text_stamp-stamp_text : (o : Option ℕ) → text_stamp (stamp_text o) ≡ o
text_stamp-stamp_text none = refl
text_stamp-stamp_text (some n) = ap some (count-strokes n)

abbrev fields_of_claims : AccessClaims → List String
fields_of_claims c =
    c.grant_id
    ∷ c.client_id
    ∷ c.issuer
    ∷ c.subject
    ∷ stamp_text c.issued_at
    ∷ stamp_text c.expires_at
    ∷ stamp_text c.not_before
    ∷ c.id
    ∷ c.audience

abbrev claims_of_fields : List String → Option (SigningMethod × AccessClaims)
claims_of_fields (g ∷ c ∷ i ∷ s ∷ at ∷ e ∷ b ∷ j ∷ a) = some (
  hs256,
  record {
    grant_id = g;
    client_id = c;
    issuer = i;
    subject = s;
    audience = a;
    issued_at = text_stamp at;
    expires_at = text_stamp e;
    not_before = text_stamp b;
    id = j;
  },
)
claims_of_fields _ = none

abbrev read_claims : Option (List String) → Option (SigningMethod × AccessClaims)
read_claims none = none
read_claims (some ss) = claims_of_fields ss

abbrev pub plain_token : AccessClaims → String
plain_token c = encode_texts (fields_of_claims c)

abbrev sign_plain : Bytes → AccessClaims → Option String
sign_plain key c = some (plain_token c)

pub read_claims-sign :
    (key : Bytes) (c : AccessClaims) (raw : String)
    → sign_plain key c ≡ some raw
    → read_claims (decode_texts raw) ≡ some (hs256, c)
read_claims-sign key c raw h =
    let e : plain_token c ≡ raw = cc in
    rw (
      ← e,
      decode_texts-encode (fields_of_claims c),
      text_stamp-stamp_text c.issued_at,
      text_stamp-stamp_text c.expires_at,
      text_stamp-stamp_text c.not_before,
    )

abbrev valid_plain : String → String → ℕ → ℕ → AccessClaims → Bool
valid_plain issuer audience leeway now c =
    (c.issuer == issuer)
    && any (λ a. a == audience) c.audience
    && in_time (λ e. ltb now (e + leeway)) c.expires_at
    && in_time (λ b. leb b (now + leeway)) c.not_before

searched : (a : String) (ss : List String) → (any (λ s. s == a) ss ≡ true) ↔ In a ss
searched a ss = (
  λ h. Some-map (λ s e. (eq_iff s a).0 e) ss (any_sound (λ s. s == a) ss h),
  λ h. any_complete (λ s. s == a) ss (Some-map (λ s e. (eq_iff s a).1 e) ss h),
)

conjuncts :
    {a b c d : Bool} → (a && b && c && d) ≡ true → (a ≡ true) × (b ≡ true) × (c ≡ true) × (d ≡ true)
conjuncts {a} {b} {c} {d} e = ground arith

all_four :
    {a b c d : Bool} {P Q R S : Type 0}
    → (a ≡ true) ↔ P
    → (b ≡ true) ↔ Q
    → (c ≡ true) ↔ R
    → (d ≡ true) ↔ S
    → ((a && b && c && d) ≡ true) ↔ (P × Q × R × S)
all_four f g h k = (
  λ e. let (p, q, r, s) = conjuncts e in (f.0 p, g.0 q, h.0 r, k.0 s),
  λ (p, q, r, s). cc (f.1 p, g.1 q, h.1 r, k.1 s),
)

pub valid_plain_iff :
    (issuer audience : String) (leeway now : ℕ) (c : AccessClaims)
    → (valid_plain issuer audience leeway now c ≡ true) ↔ (
        (c.issuer ≡ issuer)
        × In audience c.audience
        × Holds (λ e. now < e + leeway) c.expires_at
        × Holds (λ b. b ≤ now + leeway) c.not_before)
valid_plain_iff issuer audience leeway now c =
    let alive =
      in_time_iff (λ e. now < e + leeway) (λ e. ltb now (e + leeway)) c.expires_at
        (λ n. (λ h. ground arith, λ h. ground arith)) in
    let started =
      in_time_iff (λ b. b ≤ now + leeway) (λ b. leb b (now + leeway)) c.not_before
        (λ n. (λ h. ground arith, λ h. ground arith)) in
    all_four (eq_iff c.issuer issuer) (searched audience c.audience) alive started

instance abbrev pub plain_jwt : JwtLibrary
plain_jwt = record {
  unverified = λ raw. read_claims (decode_texts raw);
  verify = λ key raw. true;
  valid = valid_plain;
  sign = sign_plain;
  unverified-sign = read_claims-sign;
  verify-sign = λ key c raw h. refl;
  valid_iff = valid_plain_iff;
}
