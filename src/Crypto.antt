-- ===== src/Crypto.antt =====
-- src/crypto/crypto.cpp: AES-GCM by mbedTLS, which is a parameter.
use eie4_mesh_network.Prelude.{
  ℕ, List, [], ◌∷◌, Option, none, some, length, ◌≡◌, arith, ◌==◌, if◌then◌else◌,
}

-- The three mbedTLS calls. Each returns its code; the encryption also its output and the tag, the
-- decryption its output.
pub record Mbedtls : Type 0 where
  pub gcm_setkey : List ℕ → ℕ
  pub gcm_crypt_and_tag : List ℕ → List ℕ → List ℕ → List ℕ → ℕ → ℕ × List ℕ × List ℕ
  pub gcm_auth_decrypt : List ℕ → List ℕ → List ℕ → List ℕ → List ℕ → ℕ × List ℕ

abbrev pub nwk_key : List ℕ
nwk_key =
    0x00 ∷ 0x11 ∷ 0x22 ∷ 0x33 ∷ 0x44 ∷ 0x55 ∷ 0x66 ∷ 0x77 ∷ 0x88 ∷ 0x99 ∷ 0xaa ∷ 0xbb ∷ 0xcc ∷ 0xdd
    ∷ 0xee ∷ 0xff ∷ []

-- What a call with a return code delivers.
abbrev on_success {ℓ} : {A : Type ℓ} → ℕ → A → Option A
on_success rc a = if rc == 0 then some a else none

-- `gcm(true, …)`: the cipher text and the tag, or failure.
unfoldable pub aes_gcm_encrypt : Mbedtls → List ℕ → List ℕ → List ℕ → ℕ → Option (List ℕ × List ℕ)
aes_gcm_encrypt lib nonce aad plain tag_len =
    let (rc, cipher, tag) = lib.gcm_crypt_and_tag nwk_key nonce aad plain tag_len in
    if lib.gcm_setkey nwk_key == 0 then on_success rc (cipher, tag) else none

-- `gcm(false, …)`
unfoldable pub aes_gcm_decrypt : Mbedtls → List ℕ → List ℕ → List ℕ → List ℕ → Option (List ℕ)
aes_gcm_decrypt lib nonce aad cipher tag =
    let (rc, plain) = lib.gcm_auth_decrypt nwk_key nonce aad cipher tag in
    if lib.gcm_setkey nwk_key == 0 then on_success rc plain else none

-- What the GCM functions of mbedTLS promise: the cipher text is as long as the plain text, the tag
-- has the length that was asked for, and what was encrypted is decrypted under the same nonce and
-- associated data.
pub record IsGcm (lib : Mbedtls) : Type 0 where
  pub cipher_length :
      (key nonce aad plain : List ℕ) (n : ℕ)
      → length (lib.gcm_crypt_and_tag key nonce aad plain n).1 ≡ length plain
  pub tag_length :
      (key nonce aad plain : List ℕ) (n : ℕ)
      → length (lib.gcm_crypt_and_tag key nonce aad plain n).2 ≡ n
  pub decrypts :
      (key nonce aad plain : List ℕ) (n : ℕ)
      → (lib.gcm_crypt_and_tag key nonce aad plain n).0 ≡ 0
      → lib.gcm_auth_decrypt key nonce aad
          (lib.gcm_crypt_and_tag key nonce aad plain n).1
          (lib.gcm_crypt_and_tag key nonce aad plain n).2
        ≡ (0, plain)

pub aes_gcm_encrypt_lengths :
    (lib : Mbedtls) (nonce aad plain : List ℕ) (n : ℕ) (cipher tag : List ℕ)
    → IsGcm lib
    → aes_gcm_encrypt lib nonce aad plain n ≡ some (cipher, tag)
    → (length cipher ≡ length plain) × (length tag ≡ n)
unfolding aes_gcm_encrypt
aes_gcm_encrypt_lengths lib nonce aad plain n cipher tag g h =
    ground
      (arith, g.cipher_length nwk_key nonce aad plain n, g.tag_length nwk_key nonce aad plain n)

pub aes_gcm_decrypt-encrypt :
    (lib : Mbedtls) (nonce aad plain : List ℕ) (n : ℕ) (cipher tag : List ℕ)
    → IsGcm lib
    → aes_gcm_encrypt lib nonce aad plain n ≡ some (cipher, tag)
    → aes_gcm_decrypt lib nonce aad cipher tag ≡ some plain
unfolding aes_gcm_encrypt aes_gcm_decrypt
aes_gcm_decrypt-encrypt lib nonce aad plain n cipher tag g h =
    ground (arith, g.decrypts nwk_key nonce aad plain n)
