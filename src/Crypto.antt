-- ===== src/Crypto.antt =====
-- internal/pkg/crypto/encrypt.go. Bytes are numbers. The cipher is crypto/aes with crypto/cipher's GCM
-- under the SHA-256 of the key (GCM.Open is `unseal`): what the code calls of them is a record, with no laws.
use apime.Common.{
  ℕ, String, ◌≡◌, refl, sym, false, ap, ◌∙◌, Bool, Option, none, some, List, [], ◌∷◌, ◌++◌, length,
  take, drop, ltb, arith, Result, ok, err, if◌then◌else◌, length-append, le→not-ltb,
}

abbrev pub Bytes : Type 0
Bytes = List ℕ

pub data CryptoError : Type 0 where
  new_cipher new_gcm read_nonce too_short decrypt_failed : CryptoError

-- `seal key nonce plaintext` and `unseal key nonce ciphertext`, with the key that the code hashes.
pub record Aead : Type 0 where
  pub sum256 : String → Bytes
  pub cipher_fails : Bytes → Bool
  pub gcm_fails : Bytes → Bool
  pub nonce_size : ℕ
  pub seal : Bytes → Bytes → Bytes → Bytes
  pub unseal : Bytes → Bytes → Bytes → Option Bytes

module _ (aead : Aead) where
  unfoldable pub new_aead : String → Result CryptoError Bytes
  new_aead key =
      let hash = aead.sum256 key in
      if aead.cipher_fails hash
      then err new_cipher
      else if aead.gcm_fails hash
      then err new_gcm
      else ok hash

  -- `read` is what io.ReadFull reads into a buffer of that size.
  unfoldable pub encrypt : (ℕ → Option Bytes) → Bytes → String → Result CryptoError Bytes
  encrypt read plaintext key = elim (new_aead key) [
    | err e ↦ err e
    | ok hash ↦ elim (read aead.nonce_size) [
      | none ↦ err read_nonce
      | some nonce ↦ ok (nonce ++ aead.seal hash nonce plaintext)
    ]
  ]

  unfoldable pub decrypt : Bytes → String → Result CryptoError Bytes
  decrypt ciphertext key = elim (new_aead key) [
    | err e ↦ err e
    | ok hash ↦
        if ltb (length ciphertext) aead.nonce_size
        then err too_short
        else elim (aead.unseal hash (take aead.nonce_size ciphertext)
            (drop aead.nonce_size ciphertext)) [
              | none ↦ err decrypt_failed
              | some plaintext ↦ ok plaintext
            ]
  ]

  take-append : (xs ys : Bytes) → take (length xs) (xs ++ ys) ≡ xs
  take-append [] ys = refl
  take-append (x ∷ xs) ys = ap (λ l. x ∷ l) (take-append xs ys)

  drop-append : (xs ys : Bytes) → drop (length xs) (xs ++ ys) ≡ ys
  drop-append [] ys = refl
  drop-append (x ∷ xs) ys = drop-append xs ys

  -- Where the cipher accepts the key and the nonce is read, encryption succeeds and decryption under
  -- the same key gives the plaintext back. It is assumed that ReadFull fills its buffer, and that the
  -- cipher opens what it sealed with the same key and nonce.
  pub decrypt-encrypt :
      (read : ℕ → Option Bytes) (nonce plaintext : Bytes) (key : String)
      → aead.cipher_fails (aead.sum256 key) ≡ false
      → aead.gcm_fails (aead.sum256 key) ≡ false
      → read aead.nonce_size ≡ some nonce
      → length nonce ≡ aead.nonce_size
      → ((hash n p : Bytes) → aead.unseal hash n (aead.seal hash n p) ≡ some p)
      → (ciphertext : Bytes) × (encrypt read plaintext key ≡ ok ciphertext)
        × (decrypt ciphertext key ≡ ok plaintext)
  unfolding encrypt decrypt new_aead
  decrypt-encrypt read nonce plaintext key cipher gcm reads filled opens =
      let hash = aead.sum256 key in
      let sealed = aead.seal hash nonce plaintext in
      let front : take aead.nonce_size (nonce ++ sealed) ≡ nonce =
        ap (λ n. take n (nonce ++ sealed)) (sym filled) ∙ take-append nonce sealed in
      let back : drop aead.nonce_size (nonce ++ sealed) ≡ sealed =
        ap (λ n. drop n (nonce ++ sealed)) (sym filled) ∙ drop-append nonce sealed in
      let long : ltb (length (nonce ++ sealed)) aead.nonce_size ≡ false =
        le→not-ltb (length (nonce ++ sealed)) aead.nonce_size
          (omega (arith, length-append nonce sealed, filled)) in
      let ready : new_aead key ≡ ok hash = ground (arith, cipher, gcm) in
      (
        nonce ++ sealed,
        rw (ready, reads, encrypt) refl,
        rw (ready, long, front, back, opens hash nonce plaintext, decrypt) refl,
      )
