-- ===== src/Secretbox.antt =====
-- internal/secretbox/box.go: sealing small blobs, and the key that the operator gives.
pub mod Roundtrip
use ocis_mcp_server.Base.{
  ℕ, ◌<◌, ◌≡◌, String, Bool, ◌||◌, Option, none, some, List, [], ◌∷◌, ◌++◌, ltb, nat_eq, length,
  if◌then◌else◌, Result, ok, err, ◌>>=◌,
}
use ocis_mcp_server.Base.Bytes.{Bytes, take, drop, hex_decode}
use ocis_mcp_server.Base.Text.{codes, trim_space}

-- What the package calls: AES-GCM of crypto/cipher, HKDF of golang.org/x/crypto, and the two
-- codings of encoding/base64.
pub record Primitives : Type 0 where
  -- key, nonce and plaintext
  pub gcm_seal : Bytes → Bytes → Bytes → Bytes
  -- key, nonce and ciphertext
  pub gcm_open : Bytes → Bytes → Bytes → Option Bytes
  -- What was sealed opens under the same key and nonce.
  pub gcm_open-seal :
      (key nonce plaintext : Bytes)
      → gcm_open key nonce (gcm_seal key nonce plaintext) ≡ some plaintext
  pub hkdf : Bytes → String → Bytes
  pub base64_std : List ℕ → Option Bytes
  pub base64_raw : List ℕ → Option Bytes

pub data BoxError : Type 0 where
  bad_key_size no_nonce too_short not_authentic empty_key bad_key : BoxError

abbrev pub key_size : ℕ
key_size = 32

abbrev pub nonce_size : ℕ
nonce_size = 12

-- aes.NewCipher takes keys of three sizes
unfoldable pub new_cipher : Bytes → Result BoxError (Unit {0})
new_cipher key =
    if nat_eq (length key) 16 || nat_eq (length key) 24 || nat_eq (length key) 32
    then ok tt
    else err bad_key_size

unfoldable pub with_key_size : Option Bytes → Option Bytes
with_key_size none = none
with_key_size (some b) = if nat_eq (length b) key_size then some b else none

unfoldable pub first_key : List (Option Bytes) → Result BoxError Bytes
first_key [] = err bad_key
first_key (o ∷ rest) = elim (with_key_size o) [ some b ↦ ok b | none ↦ first_key rest ]

module _ ⦃p : Primitives⦄ where
  unfoldable pub parse_key : String → Result BoxError Bytes
  parse_key s =
      let t = trim_space (codes s) in
      if nat_eq (length t) 0
      then err empty_key
      else first_key (hex_decode t ∷ p.base64_std t ∷ p.base64_raw t ∷ [])

  unfoldable pub derive : Bytes → String → Bytes
  derive master info = p.hkdf master info

  -- `random` is what rand.Read filled the nonce with, or none where it failed
  unfoldable pub seal : Bytes → Option Bytes → Bytes → Result BoxError Bytes
  seal key random plaintext = new_cipher key >>= λ _. elim random [
    | none ↦ err no_nonce
    | some nonce ↦ ok (nonce ++ p.gcm_seal key nonce plaintext)
  ]

  unfoldable pub open_box : Bytes → Bytes → Result BoxError Bytes
  open_box key blob = new_cipher key >>= λ _.
      if ltb (length blob) nonce_size
      then err too_short
      else elim (p.gcm_open key (take nonce_size blob) (drop nonce_size blob)) [
        | none ↦ err not_authentic
        | some plaintext ↦ ok plaintext
      ]
