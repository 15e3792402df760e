-- ===== src/Secretbox/Roundtrip.antt =====
-- Sealing and opening.
use ocis_mcp_server.Base.{
  ◌<◌, ◌≡◌, subst, String, Option, none, some, List, [], ◌∷◌, ◌++◌, arith, length, All,
  Option-cases, inl, inr, ok,
}
use ocis_mcp_server.Base.Bytes.{
  Bytes, take, drop, take-append, drop-append, length-append, hex_encode, hex_decode,
  hex_decode-encode, length-hex_encode,
}
use ocis_mcp_server.Base.Text.{codes, trim_space}
use ocis_mcp_server.Secretbox.{
  Primitives, nonce_size, key_size, with_key_size, first_key, parse_key, new_cipher, seal, open_box,
}

with_key_size-length :
    (o : Option Bytes) (b : Bytes) → with_key_size o ≡ some b → length b ≡ key_size
unfolding with_key_size
with_key_size-length none b h = cc
with_key_size-length (some c) b h = ground arith

first_key-length :
    (os : List (Option Bytes)) (key : Bytes) → first_key os ≡ ok key → length key ≡ key_size
unfolding first_key
first_key-length [] key h = cc
first_key-length (o ∷ os) key h = elim (Option-cases (with_key_size o)) [
  | inl e ↦ first_key-length os key (rw (e, first_key) at h)
  | inr (b, e) ↦ ground (arith, with_key_size-length o key)
]

module _ ⦃p : Primitives⦄ where
  open_box_of_nonce :
      (key nonce plaintext : Bytes)
      → length nonce ≡ nonce_size
      → new_cipher key ≡ ok tt
      → open_box key (nonce ++ p.gcm_seal key nonce plaintext) ≡ ok plaintext
  unfolding open_box
  open_box_of_nonce key nonce plaintext size fits =
      let c = p.gcm_seal key nonce plaintext in
      let front = subst (λ n. take n (nonce ++ c) ≡ nonce) size (take-append nonce c) in
      let back = subst (λ n. drop n (nonce ++ c) ≡ c) size (drop-append nonce c) in
      ground (arith, fits, front, back, length-append nonce c, p.gcm_open-seal key nonce plaintext)

  sealed_blob :
      (key nonce plaintext blob : Bytes)
      → seal key (some nonce) plaintext ≡ ok blob
      → (new_cipher key ≡ ok tt) × (nonce ++ p.gcm_seal key nonce plaintext ≡ blob)
  unfolding seal
  sealed_blob key nonce plaintext blob h = ground arith

  -- What was sealed under a key with a nonce of twelve bytes opens under that key.
  pub open_box-seal :
      (key nonce plaintext blob : Bytes)
      → length nonce ≡ nonce_size
      → seal key (some nonce) plaintext ≡ ok blob
      → open_box key blob ≡ ok plaintext
  open_box-seal key nonce plaintext blob size h =
      let (fits, e) = sealed_blob key nonce plaintext blob h in
      rw (← e) (open_box_of_nonce key nonce plaintext size fits)

  -- Every key that the operator's text gives has 32 bytes.
  pub parse_key-length : (s : String) (key : Bytes) → parse_key s ≡ ok key → length key ≡ key_size
  unfolding parse_key
  parse_key-length s key h =
      let t = trim_space (codes s) in
      first_key-length (hex_decode t ∷ p.base64_std t ∷ p.base64_raw t ∷ []) key (ground arith)

  -- A text of 64 hexadecimal digits gives the 32 bytes that they spell, with space around it or not.
  pub parse_key-hex :
      (s : String) (key : Bytes)
      → trim_space (codes s) ≡ hex_encode key
      → All (λ b. b < 256) key
      → length key ≡ key_size
      → parse_key s ≡ ok key
  unfolding parse_key first_key with_key_size
  parse_key-hex s key e bytes size =
      rw (e, hex_decode-encode key bytes) (ground (arith, length-hex_encode key))
