-- ===== src/Crypter/Ssl.antt =====
-- What syn-crypter takes from OpenSSL. None of it is code of the repository: the functions are a
-- parameter of the model, and what the programs rely on is stated as laws.
use syn_os.Common.{ℕ, ◌≡◌, ◌≤◌, ◌+◌, ◌*◌, ◌/◌, Option, some, Bytes, length}

pub record Ssl : Type 0 where
  -- PKCS5_PBKDF2_HMAC over SHA-256: password, salt, rounds, length
  pub pbkdf2 : Bytes → Bytes → ℕ → ℕ → Bytes
  pub sha1 : Bytes → Bytes
  pub sha256 : Bytes → Bytes
  -- HMAC over SHA-256: key, text
  pub hmac : Bytes → Bytes → Bytes
  -- AES-256-GCM: key, iv, plaintext, to the ciphertext and the tag
  pub gcm_encrypt : Bytes → Bytes → Bytes → Bytes × Bytes
  -- key, iv, ciphertext, tag; `none` where the tag does not fit
  pub gcm_decrypt : Bytes → Bytes → Bytes → Bytes → Option Bytes
  -- Blowfish-CBC with padding: key, iv, text; `none` where the padding does not fit
  pub bf_encrypt : Bytes → Bytes → Bytes → Bytes
  pub bf_decrypt : Bytes → Bytes → Bytes → Option Bytes
  -- PEM_read_PUBKEY and PEM_read_PrivateKey on a file's content
  pub pem_public : Bytes → Option Bytes
  pub pem_private : Bytes → Option Bytes
  -- RSA-OAEP over SHA-256: key, the randomness of the padding, message
  pub oaep_encrypt : Bytes → Bytes → Bytes → Bytes
  pub oaep_decrypt : Bytes → Bytes → Option Bytes
  -- the size of the buffer that EVP_PKEY_decrypt asks for
  pub oaep_size : Bytes → ℕ

-- The documented behaviour: fixed lengths, and decryption undoes encryption under the same key.
pub record Laws (ssl : Ssl) : Type 0 where
  pub length-sha1 : (b : Bytes) → length (ssl.sha1 b) ≡ 20
  pub length-sha256 : (b : Bytes) → length (ssl.sha256 b) ≡ 32
  pub length-hmac : (k b : Bytes) → length (ssl.hmac k b) ≡ 32
  pub length-tag : (k iv b : Bytes) → length (ssl.gcm_encrypt k iv b).1 ≡ 16
  pub length-gcm : (k iv b : Bytes) → length (ssl.gcm_encrypt k iv b).0 ≡ length b
  -- padding fills the last block of 8 bytes, or adds one
  pub length-bf : (k iv b : Bytes) → length (ssl.bf_encrypt k iv b) ≡ (length b / 8 + 1) * 8
  pub gcm_lem :
      (k iv b : Bytes)
      → ssl.gcm_decrypt k iv (ssl.gcm_encrypt k iv b).0 (ssl.gcm_encrypt k iv b).1 ≡ some b
  pub bf_lem : (k iv b : Bytes) → ssl.bf_decrypt k iv (ssl.bf_encrypt k iv b) ≡ some b

-- `private` is the private key of `public`, of 8192 bits at most: it opens each AES key that was
-- wrapped for `public`, and what is wrapped and the buffer that is asked for have 1024 bytes at most.
pub record KeyPair (ssl : Ssl) (public private : Bytes) : Type 0 where
  pub oaep_lem :
      (seed m : Bytes)
      → length m ≡ 32
      → ssl.oaep_decrypt private (ssl.oaep_encrypt public seed m) ≡ some m
  pub size : ssl.oaep_size private ≤ 1024
  pub length-wrapped :
      (seed m : Bytes) → length m ≡ 32 → length (ssl.oaep_encrypt public seed m) ≤ 1024
